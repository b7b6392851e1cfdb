-- ===== src/Channels/Examples.antt =====
-- Runs of the handlers of src/channels.c at concrete channels, users and messages.
use mathlib.Core.Option.{map}
use denora.Prelude.{
  ℕ, suc, ◌-◌, ◌≡◌, ◌≢◌, refl, ap, Bool, true, false, List, [], ◌∷◌, Option, none, some, CString,
  Bool-cases, arith, ◌∙◌, length, length-set, set, of_some, codes, replicate, length-replicate,
  if◌then◌else◌, inl, inr, ◌==◌, Option-cases, stricmp_eq, tolower,
}
use denora.Bans.Queries.{Channel}
use denora.Channels.{Config, World, find_cs, findchan, joined}
use denora.Channels.Agreeing.{Agree}
use denora.Channels.Commands.{do_join, do_part, do_kick}
use denora.Channels.Creating.{Finds}
use denora.Channels.Handlers.{on_chans}
use denora.Channels.Joining.{Goes, Joins}
use denora.Channels.Promise.{IsConfigured, do_join-Joins, do_part-Goes, do_kick-Joins}
use denora.Channels.Naming.{findchan-long, do_part-do_join}
use denora.Channels.Runs.{new_world, join, Reach, start, after, Reach-IsSound, handlers-total}
use denora.Channels.Spec.{view, join_of, part_of, kick_of}
use denora.Users.{User, UserList, finduser}
use denora.Users.Quit.{quit_world, delete_user, delete_user-finduser}
use denora.Channels.Topic.{do_topic, do_topic-topic}
use denora.Channels.Steps.{IsSound, and_false}

abbrev find_first : (A : Type 0) → (A → Bool) → List A → Option ℕ
find_first A f [] = none
find_first A f (x ∷ xs) = let rest = map suc (find_first A f xs) in if f x then some 0 else rest

find_first-Finds : Finds find_first
find_first-Finds A f [] i e = absurd (ground (arith, e))
find_first-Finds A f (x ∷ xs) i e = elim (Bool-cases (f x)) [
  | inl q ↦ let at : 0 ≡ i = ap (of_some 0) (rw q at e) in rw (← at) (x, refl, q)
  | inr q ↦ elim (Option-cases (find_first A f xs)) [
    | inl n ↦ absurd (let k = rw (q, n) at e in ground (arith, k))
    | inr (j, k) ↦
        let at : suc j ≡ i = ap (of_some 0) (rw (q, k) at e) in
        rw (← at) (find_first-Finds A f xs j k)
  ]
]

abbrev parting : Bool → Config
parting part_on_empty = record {
  db = record { large_net = false; do_sql = false; quote = λ s. s; rows = λ q. none };
  cmodes = replicate 128 0;
  persist_char = b'P';
  part_on_empty = part_on_empty;
  qmsg = false;
  cstats = codes "#Stats" ∷ [];
  statserv = codes "StatServ";
  nick = λ u. if u == 9 then codes "StatServ" else codes "user";
  own = some 9;
}

abbrev cfg : Config
cfg = parting false

own_nick : (o : ℕ) → cfg.own ≡ some o → stricmp_eq (cfg.nick o) cfg.statserv ≡ true
unfolding stricmp_eq
own_nick o e = rw (← ap (of_some 0) e) refl

ok : IsConfigured find_first cfg
ok = record {
  found = find_first-Finds;
  all_flags = length-replicate {A = ℕ} 128 0;
  persist = omega arith;
  own_nick = own_nick;
  stays = λ name. and_false (find_cs find_first cfg name);
}

abbrev in_world : Option World → World
in_world none = new_world
in_world (some w) = w

-- The own client is user 9; the nick of any other is its number.
abbrev user_named : CString → Option ℕ
user_named [] = none
user_named (c ∷ s) = some (if c == b'S' then 9 else c - 48)

abbrev number : CString → ℕ
number s = length s

-- User 1 is on two channels, user 2 on one of them.
abbrev first_joined : World
unfolding do_join stricmp_eq
first_joined =
    in_world (do_join find_first cfg 100 number new_world (some 1) (codes "#stats,#b" ∷ []))

abbrev both_joined : World
unfolding do_join first_joined stricmp_eq
both_joined =
    in_world (do_join find_first cfg 200 number first_joined (some 2) (codes "#STATS" ∷ []))

both_joined-Reach : Reach find_first cfg both_joined
unfolding both_joined stricmp_eq
both_joined-Reach =
    after (after start (join {w' = first_joined} 100 number (some 1) (codes "#stats,#b" ∷ []) refl))
      (join 200 number (some 2) (codes "#STATS" ∷ []) refl)

-- The own client joins a channel of the statistics when a user does.
both_joined-view :
    (view both_joined 1 ≡ codes "#b" ∷ codes "#stats" ∷ [])
    × (view both_joined 2 ≡ codes "#stats" ∷ [])
    × (view both_joined 9 ≡ codes "#stats" ∷ [])
    × (both_joined.store.sent ≡ joined (codes "#stats") 100 ∷ [])
unfolding both_joined stricmp_eq tolower
both_joined-view = (refl, refl, refl, refl)

-- Where the own client parts from a channel on which it is left alone, the channel is freed by
-- that, and the store is written to it behind the call.
freed_written :
    let run =
      do_join find_first (parting true) 100 number new_world (some 1) (codes "#stats" ∷ []) in
    (map (λ w. view w 9) run ≡ some (codes "#stats" ∷ []))
    × (do_part find_first (parting true) 200 (in_world run) (some 1) (codes "#stats" ∷ []) ≡ none)
unfolding do_join do_part stricmp_eq tolower
freed_written = (refl, refl)

-- A user that is kicked parts, and the own client, when it is the one, joins again.
own_kicked :
    let run =
      do_kick find_first cfg 300 user_named both_joined (codes "#Stats") (codes "StatServ") in
    map (λ w. view w 9) run ≡ some (codes "#stats" ∷ [])
unfolding do_kick both_joined stricmp_eq tolower
own_kicked = refl

-- The last user parts and the channel is freed.
one_freed :
    map (λ w. w.store.heap 1) (do_part find_first cfg 300 both_joined (some 1) (codes "#B" ∷ []))
    ≡ some none
unfolding do_part both_joined stricmp_eq tolower
one_freed = refl

both_joined-IsSound : IsSound both_joined.chans both_joined.store
both_joined-IsSound = Reach-IsSound find_first cfg ok both_joined both_joined-Reach

do_join-Joins_example :
    Joins cfg.own
      (join_of (view both_joined) (some 2) (codes "#new,#b,0" ∷ codes "77" ∷ []))
      (do_join find_first cfg 400 number both_joined (some 2) (codes "#new,#b,0" ∷ codes "77" ∷ []))
do_join-Joins_example =
    do_join-Joins find_first cfg 400 ok number both_joined both_joined-IsSound (some 2)
      (codes "#new,#b,0" ∷ codes "77" ∷ [])

do_part-Goes_example :
    Goes
      (part_of (view both_joined) (some 1) (codes "#b,#STATS" ∷ []))
      (do_part find_first cfg 400 both_joined (some 1) (codes "#b,#STATS" ∷ []))
do_part-Goes_example =
    do_part-Goes find_first cfg 400 ok both_joined both_joined-IsSound (some 1)
      (codes "#b,#STATS" ∷ [])

do_kick-Joins_example :
    Joins cfg.own
      (kick_of user_named (view both_joined) (codes "#Stats") (codes "1,2"))
      (do_kick find_first cfg 400 user_named both_joined (codes "#Stats") (codes "1,2"))
do_kick-Joins_example =
    do_kick-Joins find_first cfg 400 ok user_named both_joined both_joined-IsSound (codes "#Stats")
      (codes "1,2")

Reach-IsSound_example : IsSound both_joined.chans both_joined.store
Reach-IsSound_example = Reach-IsSound find_first cfg ok both_joined both_joined-Reach

handlers-total_example :
    (do_join find_first cfg 400 number both_joined (some 2) (codes "#new" ∷ []) ≢ none)
    × (do_part find_first cfg 400 both_joined (some 2) (codes "#new" ∷ []) ≢ none)
    × (do_kick find_first cfg 400 user_named both_joined (codes "#b") (codes "1,2") ≢ none)
    × (quit_world find_first cfg 400 both_joined 1 ≢ none)
handlers-total_example =
    handlers-total find_first cfg ok both_joined both_joined-Reach 400 number user_named (some 2)
      (codes "#new" ∷ []) (codes "#b") (codes "1,2") 1

do_part-do_join_example :
    (w' : World) × (w'' : World) × (do_join find_first cfg 400 number both_joined
        (some 2)
        (codes "#new" ∷ [])
      ≡ some w')
    × (do_part find_first cfg 500 w' (some 2) (codes "#new" ∷ []) ≡ some w'')
    × Agree cfg.own (view w'') (view both_joined)
do_part-do_join_example =
    do_part-do_join find_first cfg ok both_joined both_joined-IsSound 400 500 number 2 35
      (codes "new") (omega arith) refl refl

findchan-long_example : findchan both_joined.store (some (replicate 64 35)) ≡ some none
findchan-long_example =
    findchan-long both_joined.chans both_joined.store both_joined-IsSound (replicate 64 35)
      (omega arith)

abbrev one_user : User
one_user = record { at = 1; nick = codes "Ann" }

-- Both nicks begin with A and N, whose bucket is 46.
abbrev users : UserList
users = set (replicate 1024 []) 46 (one_user ∷ record { at = 2; nick = codes "anna" } ∷ [])

delete_user-finduser_example :
    (t : UserList) × (w : World) × (delete_user find_first cfg 700 users both_joined (some one_user)
      ≡ some (t, w))
    × IsSound w.chans w.store
    × (view w ≡ on_chans (view both_joined) 1 [])
    × (length t ≡ 1024)
    × (finduser t (some (codes "ANNA")) ≡ some (some (record { at = 2; nick = codes "anna" })))
unfolding stricmp_eq finduser
delete_user-finduser_example =
    delete_user-finduser find_first cfg 700 ok both_joined both_joined-IsSound users one_user []
      (record { at = 2; nick = codes "anna" } ∷ []) b'A' (codes "NNA")
      (length-set {A = List User} (replicate 1024 []) 46
          (one_user ∷ record { at = 2; nick = codes "anna" } ∷ [])
        ∙ length-replicate {A = List User} 1024 [])
      refl tt

do_topic-topic_example :
    (w : World) × (do_topic number number true 600 both_joined
        (codes "#STATS" ∷ codes "ann!a@host" ∷ codes "!77" ∷ codes "Hello" ∷ [])
      ≡ some w)
    × IsSound w.chans w.store
    × (view w ≡ view both_joined)
    × ((c : Channel) × (w.store.heap 0 ≡ some c)
        × (c.topic ≡ some (codes "Hello"))
        × (c.topic_time ≡ 3))
unfolding both_joined findchan stricmp_eq
do_topic-topic_example =
    do_topic-topic number number true 600 both_joined both_joined-IsSound (codes "#STATS") 0 b'a'
      (codes "nn!a@host") (codes "!77") (codes "Hello") [] refl refl
