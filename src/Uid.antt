-- ===== src/Uid.antt =====
-- Generated user ids, the TS6 and P10 generators of src/uid.c. `ts6_new_uid` is the list of its ten
-- bytes. `none` stands for a run that leaves the buffer, or reads through the null pointer that
-- TS6SID is if no SID is configured.
pub mod Marks
pub mod Step
pub mod Serial
mod Examples
use denora.Prelude.{
  ℕ, zero, suc, ◌+◌, ◌-◌, Bool, true, false, ◌&&◌, List, [], ◌∷◌, ◌++◌, Option, none, some, CString,
  length, get_elem?, set, take, ◌%◌, ◌==◌, if◌then◌else◌,
}

-- `for (slot = 3; slot < 9; slot++) ts6_new_uid[slot] = 'A'`
unfoldable pub reset_uid : CString → CString
reset_uid uid = set (set (set (set (set (set uid 3 b'A') 4 b'A') 5 b'A') 6 b'A') 7 b'A') 8 b'A'

-- `ts6_uid_increment(slot)` at the character `c` in that slot. `carry` is the recursive call on the
-- slot before, with the buffer that it finds.
unfoldable pub increment_at :
    ℕ → ℕ → (CString → Option CString) → CString → Option ℕ → Option CString
unfolding reset_uid
increment_at sid_len slot carry uid none = none
increment_at sid_len slot carry uid (some c) =
    if slot == sid_len
    then (if c == b'Z' then some (reset_uid uid) else some (set uid slot (c + 1)))
    else if c == b'Z'
    then some (set uid slot b'0')
    else if c == b'9'
    then carry (set uid slot b'A')
    else some (set uid slot (c + 1))

-- The recursion on slot 0 goes on at slot 2^32 - 1, outside of the buffer.
unfoldable pub ts6_uid_increment : ℕ → ℕ → CString → Option CString
unfolding increment_at
ts6_uid_increment sid_len zero uid = increment_at sid_len 0 (λ _. none) uid (get_elem? uid 0)
ts6_uid_increment sid_len (suc slot) uid =
    increment_at sid_len (suc slot) (ts6_uid_increment sid_len slot) uid (get_elem? uid (suc slot))

-- The static variables of the generators, and the configuration that they read.
pub record UidState : Type 0 where
  pub ts6_uid_initted : Bool
  pub ts6_new_uid : CString
  pub use_ts6 : Bool
  pub p10nickcnt : ℕ
  pub ts6sid : Option CString
  pub p10id : CString
  pub ircd_ts6 : Bool
  pub ircd_p10 : Bool

-- `ircsnprintf(ts6_new_uid, 10, "%sAAAAAA", TS6SID)`: an SID has three characters
unfoldable pub first_uid : CString → CString
first_uid sid = sid ++ (b'A' ∷ b'A' ∷ b'A' ∷ b'A' ∷ b'A' ∷ b'A' ∷ 0 ∷ [])

unfoldable pub init_sid : UidState → Option CString → UidState
unfolding first_uid
init_sid st (some sid) = record st { ts6_new_uid = first_uid sid; ts6_uid_initted = true }
init_sid st none = record st { use_ts6 = false }

unfoldable pub ts6_uid_init : UidState → UidState
unfolding init_sid
ts6_uid_init st = init_sid st st.ts6sid

-- `strlen(TS6SID)` is a fault on a null pointer.
unfoldable pub increment_sid : UidState → Option CString → Option CString
unfolding ts6_uid_increment
increment_sid st none = none
increment_sid st (some sid) = ts6_uid_increment (length sid) 8 st.ts6_new_uid

abbrev pub store_uid : UidState → Option CString → Option (UidState × CString)
store_uid st none = none
store_uid st (some uid) = some (record st { ts6_new_uid = uid }, uid)

-- the rest of `ts6_uid_retrieve`, behind its test
unfoldable pub retrieve_next : UidState → Option (UidState × CString)
unfolding increment_sid
retrieve_next st = store_uid st (increment_sid st st.ts6sid)

unfoldable pub ts6_uid_retrieve : UidState → Option (UidState × CString)
unfolding ts6_uid_init retrieve_next
ts6_uid_retrieve st = retrieve_next (if st.ts6_uid_initted then st else ts6_uid_init st)

-- `ircsnprintf(nicknumbuf, 6, "%sAA%c", p10id, (p10nickcnt + 'A'))`, while the character is not
-- zero
unfoldable pub p10_uid_gen : UidState → UidState × CString
p10_uid_gen st = (
  record st { p10nickcnt = st.p10nickcnt + 1 },
  take 5 (st.p10id ++ (b'A' ∷ b'A' ∷ (st.p10nickcnt + b'A') % 256 ∷ [])),
)

-- What `uid_gen` comes to: a fault, a null pointer, or a new id.
pub data Generated : Type 0 where
  fault : Generated
  no_uid : Generated
  uid : UidState → CString → Generated

unfoldable pub generated : Option (UidState × CString) → Generated
generated none = fault
generated (some (st, u)) = uid st u

unfoldable pub uid_gen : UidState → Generated
unfolding ts6_uid_retrieve p10_uid_gen generated
uid_gen st =
    if st.ircd_ts6 && st.use_ts6
    then generated (ts6_uid_retrieve st)
    else if st.ircd_p10
    then uid (p10_uid_gen st).0 (p10_uid_gen st).1
    else no_uid
