-- ===== src/Uid/Examples.antt =====
-- The theorems on user ids at a concrete configuration, and runs of the generators.
use denora.Prelude.{◌≡◌, ◌%◌, refl, some, none, true, false, [], ◌∷◌, CString, codes, arith}
use denora.Uid.{UidState, uid, uid_gen}
use denora.Uid.Marks.{Tail, IsTail, all_uids}
use denora.Uid.Serial.{retrieve_times, HasSerial, IsFresh, ts6_uid_retrieve-serial}

abbrev start : UidState
start = record {
  ts6_uid_initted = false;
  ts6_new_uid = [];
  use_ts6 = true;
  p10nickcnt = 0;
  ts6sid = some (codes "00A");
  p10id = codes "Az";
  ircd_ts6 = true;
  ircd_p10 = false;
}

start-IsFresh : IsFresh b'0' b'0' b'A' start
start-IsFresh = record { not_initted = refl; sid = refl }

abbrev no_sid : UidState
no_sid = record start { ts6sid = none }

abbrev last_tail : Tail
last_tail = record { t₀ = b'Z'; t₁ = b'9'; t₂ = b'9'; t₃ = b'9'; t₄ = b'9'; t₅ = b'9' }

last_tail-IsTail : IsTail last_tail
last_tail-IsTail = ground arith

ts6_uid_retrieve-serial_example :
    (r : UidState × CString) × (retrieve_times 3 start ≡ some r)
    × HasSerial b'0' b'0' b'A' (3 % all_uids) r.1
ts6_uid_retrieve-serial_example = ts6_uid_retrieve-serial b'0' b'0' b'A' 2 start start-IsFresh

abbrev made : CString → UidState
made u = record start { ts6_uid_initted = true; ts6_new_uid = u }

abbrev first_id : CString
first_id = b'0' ∷ b'0' ∷ b'A' ∷ b'A' ∷ b'A' ∷ b'A' ∷ b'A' ∷ b'A' ∷ b'B' ∷ 0 ∷ []

abbrev third_id : CString
third_id = b'0' ∷ b'0' ∷ b'A' ∷ b'A' ∷ b'A' ∷ b'A' ∷ b'A' ∷ b'A' ∷ b'D' ∷ 0 ∷ []

-- The 27th P10 id ends in `[`.
p10_wrap :
    uid_gen (record start { ircd_ts6 = false; ircd_p10 = true; p10nickcnt = 26 })
    ≡ uid (record start { ircd_ts6 = false; ircd_p10 = true; p10nickcnt = 27 }) (codes "AzAA[")
unfolding uid_gen
p10_wrap = refl
