-- ===== src/Channels/Spec.antt =====
-- What the handlers of JOIN, PART and KICK promise: which channels a user is on, as the list of
-- their names in small letters, the latest first; nothing is said of hash tables, of memory or of
-- counts. And how this is read off the store of src/channels.c.
use mathlib.Core.Path.{fun_ext}
use denora.Prelude.{
  ℕ, ◌≡◌, refl, sym, Bool, false, not, ◌&&◌, List, [], ◌∷◌, Option, none, some, CString, inl, inr,
  Bool-cases, ◌==◌, ==_iff, ==_refl, if◌then◌else◌, str_eq, tolower, is_nil,
}
use denora.Bans.Queries.{Channel}
use denora.Channels.{World, cut_name}
use denora.Channels.Handlers.{on_chans, names_of}

abbrev pub lower : CString → CString
lower [] = []
lower (c ∷ s) = tolower c ∷ lower s

-- The first entry that has the name is removed; the empty name is none.
abbrev pub same_key : CString → CString → Bool
same_key k x = not (is_nil k) && str_eq k x

abbrev pub remove : CString → List CString → List CString
remove k [] = []
remove k (x ∷ l) = let rest = remove k l in if same_key k x then l else x ∷ rest

-- For every user, the names of the channels that it is on.
abbrev pub Membership : Type 0
Membership = ℕ → List CString

-- A user joins the channel of a name, as far as it fits into an array of 64 bytes; 0 is none of
-- them.
unfoldable pub joined_to : ℕ → Membership → CString → Membership
unfolding on_chans
joined_to u on [] = on
joined_to u on (c ∷ name) =
    if c == b'0' then on_chans on u [] else on_chans on u (lower (cut_name (c ∷ name)) ∷ on u)

unfoldable pub parted_from : ℕ → Membership → CString → Membership
unfolding on_chans
parted_from u on name = on_chans on u (remove (lower name) (on u))

unfoldable pub kicked : CString → Membership → Option ℕ → Membership
unfolding parted_from
kicked chan on none = on
kicked chan on (some u) = parted_from u on chan

unfoldable pub kicked_from : (CString → Option ℕ) → CString → Membership → CString → Membership
unfolding kicked
kicked_from user_find chan on name = kicked chan on (user_find name)

-- One after the other.
abbrev pub each {ℓ} :
    {A : Type ℓ} → (Membership → A → Membership) → Membership → List A → Membership
each f on [] = on
each f on (x ∷ xs) = let next = f on x in each f next xs

unfoldable pub join_of : Membership → Option ℕ → List CString → Membership
unfolding joined_to names_of
join_of on user [] = on
join_of on none (names ∷ av) = on
join_of on (some u) (names ∷ av) = each (joined_to u) on (names_of names)

unfoldable pub part_of : Membership → Option ℕ → List CString → Membership
unfolding parted_from names_of
part_of on user [] = on
part_of on none (names ∷ av) = on
part_of on (some u) (names ∷ av) = each (parted_from u) on (names_of names)

unfoldable pub kick_of : (CString → Option ℕ) → Membership → CString → CString → Membership
unfolding kicked_from names_of
kick_of user_find on chan nicks = each (kicked_from user_find chan) on (names_of nicks)

-- With a uid in place of the nicks, the nick of the user that has it.
unfoldable pub p10_kick_of :
    (CString → CString) → (CString → Option ℕ) → Membership → List CString → Membership
unfolding kick_of
p10_kick_of nick_of user_find on (chan ∷ uid ∷ reason ∷ []) =
    kick_of user_find on chan (nick_of uid)
p10_kick_of nick_of user_find on av = on

abbrev pub name_at : Option Channel → CString
name_at none = []
name_at (some c) = lower c.name

abbrev pub keys : (ℕ → Option Channel) → List ℕ → List CString
keys heap [] = []
keys heap (a ∷ l) = name_at (heap a) ∷ keys heap l

abbrev pub names_at : (ℕ → Option Channel) → (ℕ → List ℕ) → Membership
names_at heap chans u = keys heap (chans u)

abbrev pub view : World → Membership
view w = names_at w.store.heap w.chans

-- What holds of the user whose list is another now, and of the others as they were, holds then.
pub on_chans_cases {ℓ} :
    {A : Type ℓ} (P : ℕ → List A → Type ℓ) (chans : ℕ → List A) (u : ℕ) (l : List A) (w : ℕ)
    → P u l
    → ((w == u) ≡ false → P w (chans w))
    → P w (on_chans chans u l w)
unfolding on_chans
on_chans_cases P chans u l w here there = elim (Bool-cases (w == u)) [
  | inl q ↦ let k = (==_iff w u).0 q in rw (q, k) here
  | inr q ↦ rw q (there q)
]

pub on_chans_same {ℓ} :
    {A : Type ℓ} (chans : ℕ → List A) (u : ℕ) (l : List A) → on_chans chans u l u ≡ l
unfolding on_chans
on_chans_same chans u l = rw (==_refl u) refl

pub on_chans_self {ℓ} :
    {A : Type ℓ} (chans : ℕ → List A) (u : ℕ) (l : List A)
    → chans u ≡ l
    → on_chans chans u l ≡ chans
on_chans_self chans u l e =
    fun_ext (λ w. on_chans_cases (λ w l. l ≡ chans w) chans u l w (sym e) (λ q. refl))

pub on_chans_twice {ℓ} :
    {A : Type ℓ} (chans : ℕ → List A) (u : ℕ) (l m : List A)
    → on_chans (on_chans chans u l) u m ≡ on_chans chans u m
unfolding on_chans
on_chans_twice chans u l m =
    fun_ext (λ w. elim (Bool-cases (w == u)) [ inl q ↦ rw q refl | inr q ↦ rw q refl ])
