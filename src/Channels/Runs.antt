-- ===== src/Channels/Runs.antt =====
-- Any run of the handlers of JOIN, PART, KICK and TOPIC of src/channels.c and of the removal of
-- users, from the start of the program on.
use denora.Prelude.{
  zero, suc, ℕ, ◌≡◌, ◌≢◌, refl, ap, sym, ◌∙◌, Bool, List, [], Option, none, some, CString, arith,
  replicate, length-replicate, get_elem?-replicate-some, of_some,
}
use mathlib.Core.Path.{subst}
use denora.Channels.{Config, World}
use denora.Channels.Commands.{do_join, do_part, do_kick, do_p10_kick}
use denora.Channels.Joining.{Joins, Goes-Joins}
use denora.Channels.Promise.{
  IsConfigured, do_join-Joins, do_part-Goes, do_kick-Joins, do_p10_kick-Joins,
}
use denora.Channels.Spec.{Membership}
use denora.Channels.Topic.{do_topic, do_topic-IsSound}
use denora.Users.Quit.{quit_world, quit_world-Goes}
use denora.Channels.Store.{total}
use denora.Channels.Steps.{IsSound}

-- The program has just started: no channel, no counts, no user.
abbrev pub new_world : World
new_world = record {
  store = record {
    chanlist = replicate 1024 [];
    heap = λ a. none;
    free = 0;
    stats = [];
    chans = 0;
    sent = [];
  };
  chans = λ u. [];
}

total-replicate : (n : ℕ) → 0 ≡ total (replicate n [])
total-replicate zero = refl
total-replicate (suc n) = let ih = total-replicate n in omega (arith, ih)

pub new_world-IsSound : IsSound new_world.chans new_world.store
new_world-IsSound = record {
  buckets = length-replicate {A = List ℕ} 1024 [];
  in_place = λ i a b e. rw (← get_elem?-replicate-some 1024 i [] b e) refl;
  both = λ u a. refl;
  fresh = λ a le. refl;
  number = total-replicate 1024;
  counts = λ a c e. absurd (ground (arith, e));
  short = λ a c e. absurd (ground (arith, e));
}

module _ (list_find : (A : Type 0) → (A → Bool) → List A → Option ℕ) (cfg : Config) where
  -- A message that is handled; what the other modules say at that time is arbitrary.
  pub data Step : World → World → Type 0 where
    join :
        {w w' : World} (now : ℕ) (strtoul : CString → ℕ) (user : Option ℕ) (av : List CString)
        → do_join list_find cfg now strtoul w user av ≡ some w'
        → Step w w'
    part :
        {w w' : World} (now : ℕ) (user : Option ℕ) (av : List CString)
        → do_part list_find cfg now w user av ≡ some w'
        → Step w w'
    kick :
        {w w' : World} (now : ℕ) (user_find : CString → Option ℕ) (chan nicks : CString)
        → do_kick list_find cfg now user_find w chan nicks ≡ some w'
        → Step w w'
    p10_kick :
        {w w' : World} (now : ℕ) (find_byuid user_find : CString → Option ℕ) (av : List CString)
        → do_p10_kick list_find cfg now find_byuid user_find w av ≡ some w'
        → Step w w'
    topic :
        {w w' : World} (base64dec_ts strtoul : CString → ℕ) (sjb64 : Bool) (now : ℕ)
        (av : List CString)
        → do_topic base64dec_ts strtoul sjb64 now w av ≡ some w'
        → Step w w'
    quit : {w w' : World} (now u : ℕ) → quit_world list_find cfg now w u ≡ some w' → Step w w'

  pub data Reach : World → Type 0 where
    start : Reach new_world
    after : {w w' : World} → Reach w → Step w w' → Reach w'

Joins-IsSound :
    (own : Option ℕ) (on : Membership) (o : Option World) (w : World)
    → Joins own on o
    → o ≡ some w
    → IsSound w.chans w.store
Joins-IsSound own on o w (w', e, v, same) f =
    subst (λ w. IsSound w.chans w.store) (ap (of_some w) (sym e ∙ f)) v

returns : (own : Option ℕ) (on : Membership) {o : Option World} → Joins own on o → o ≢ none
returns own on (w, e, v, same) n = let z = sym e ∙ n in absurd (ground (arith, z))

module _ (list_find : (A : Type 0) → (A → Bool) → List A → Option ℕ) (cfg : Config)
    (ok : IsConfigured list_find cfg) where
  Step-IsSound :
      (w w' : World) → IsSound w.chans w.store → Step list_find cfg w w' → IsSound w'.chans w'.store
  Step-IsSound w w' v (join now strtoul user av e) =
      Joins-IsSound cfg.own _ _ w' (do_join-Joins list_find cfg now ok strtoul w v user av) e
  Step-IsSound w w' v (part now user av e) =
      Joins-IsSound cfg.own _ _ w'
        (Goes-Joins cfg.own _ _ (do_part-Goes list_find cfg now ok w v user av)) e
  Step-IsSound w w' v (kick now user_find chan nicks e) =
      Joins-IsSound cfg.own _ _ w' (do_kick-Joins list_find cfg now ok user_find w v chan nicks) e
  Step-IsSound w w' v (p10_kick now find_byuid user_find av e) =
      Joins-IsSound cfg.own _ _ w'
        (do_p10_kick-Joins list_find cfg now ok find_byuid user_find w v av) e
  Step-IsSound w w' v (topic base64dec_ts strtoul sjb64 now av e) =
      do_topic-IsSound base64dec_ts strtoul sjb64 now w w' v av e
  Step-IsSound w w' v (quit now u e) =
      Joins-IsSound cfg.own _ _ w'
        (Goes-Joins cfg.own _ _ (quit_world-Goes list_find cfg now ok w v u)) e

  -- With what IsConfigured says, that `list_find` finds entries, the table of the flags has a place
  -- for every character, the own client has its nick, and it does not part from a channel that is
  -- left empty: whatever messages have come, and whatever channels the own client has joined for
  -- them, a user is on a channel by its own list as often as by that of the channel, no list and no
  -- bucket points to a channel that is freed, every channel stands once in the bucket of its name
  -- and in no other, its counts are in the list of them, and the number of channels that is kept is
  -- that of the channels that there are.
  pub Reach-IsSound : (w : World) → Reach list_find cfg w → IsSound w.chans w.store
  Reach-IsSound w start = new_world-IsSound
  Reach-IsSound w (after {w = b} r step) = Step-IsSound b w (Reach-IsSound b r) step

  -- With what IsConfigured says, that `list_find` finds entries, the table of the flags has a place
  -- for every character, the own client has its nick, and it does not part from a channel that is
  -- left empty: whatever messages have come, the next JOIN, PART or KICK, or the removal of a user
  -- from its channels, with the JOIN of the own client that it may call, does not touch a channel
  -- that is freed, nor read or write outside of an array, and it ends.
  pub handlers-total :
      (w : World)
      → Reach list_find cfg w
      → (now : ℕ) (strtoul : CString → ℕ) (user_find : CString → Option ℕ)
      → (user : Option ℕ) (av : List CString) (chan nicks : CString) (u : ℕ)
      → (do_join list_find cfg now strtoul w user av ≢ none)
        × (do_part list_find cfg now w user av ≢ none)
        × (do_kick list_find cfg now user_find w chan nicks ≢ none)
        × (quit_world list_find cfg now w u ≢ none)
  handlers-total w r now strtoul user_find user av chan nicks u =
      let v = Reach-IsSound w r in
      (
        returns cfg.own _ (do_join-Joins list_find cfg now ok strtoul w v user av),
        returns cfg.own _ (Goes-Joins cfg.own _ _ (do_part-Goes list_find cfg now ok w v user av)),
        returns cfg.own _ (do_kick-Joins list_find cfg now ok user_find w v chan nicks),
        returns cfg.own _ (Goes-Joins cfg.own _ _ (quit_world-Goes list_find cfg now ok w v u)),
      )
