-- ===== src/Channels/Topic.antt =====
-- The topic of a channel, do_topic of src/channels.c. The arguments that are counted are the list
-- `av`; base64dec_ts and strtoul are parameters. A result `none` is an argument that is not there,
-- or a null pointer that is copied from.
use denora.Prelude.{
  ℕ, ◌+◌, ◌-◌, ◌%◌, ◌^◌, ◌≡◌, refl, ap, sym, ◌∙◌, Bool, true, false, ◌&&◌, List, [], ◌∷◌, Option,
  none, some, CString, inl, inr, Bool-cases, Option-cases, arith, length, length-set, get_elem?,
  get_elem?-lt, set, take, ◌==◌, if◌then◌else◌, ◌>>=◌, bind-some, bind-none, of_some,
}
use mathlib.Core.Path.{subst}
use denora.Bans.Masks.{Pointer}
use denora.Bans.Queries.{Channel}
use denora.Channels.{World, Chans, write, findchan, mem}
use denora.Channels.Changes.{IsStore-update}
use denora.Channels.Spec.{view}
use denora.Channels.Steps.{IsSound, keys-IsSound}
use denora.Channels.Store.{occurs, users_of, write_cases, write_same, findchan-Live, Live}
use denora.Channels.View.{Names-write-some}
use denora.Tokens.{str_get_token}
use denora.Tokens.Agreement.{str_get_token-fields, first_field}
use denora.Tokens.Fields.{fields, fields-cons, prepend}
use denora.Users.{nickmax}

-- Who set the topic: what stands in front of the ! of a mask.
unfoldable pub setter_of : CString → Pointer
unfolding str_get_token
setter_of author = if mem b'!' author then str_get_token author b'!' 0 else some author

-- The arguments behind the author are the time and the topic.
abbrev pub topic_of : List CString → Pointer
topic_of [] = none
topic_of (ts ∷ []) = none
topic_of (ts ∷ topic ∷ av) = some topic

abbrev pub starts_bang : CString → Bool
starts_bang [] = false
starts_bang (c ∷ s) = c == b'!'

module _ (base64dec_ts strtoul : CString → ℕ) (sjb64 : Bool) (now : ℕ) where
  abbrev pub topic_time_of : List CString → ℕ
  topic_time_of [] = now
  topic_time_of (ts ∷ av) = if sjb64 && starts_bang ts then base64dec_ts ts else strtoul ts

  unfoldable pub set_topic : World → ℕ → CString → List CString → Option World
  unfolding setter_of write
  set_topic w a author av = do
    c ← w.store.heap a
    setter ← setter_of author
    st ← get_elem? w.store.stats c.stats
    let time = topic_time_of av
    some (record w {
      store = record w.store {
        heap = write w.store.heap a (
            some (record c {
              topic = topic_of av;
              topic_setter = take (nickmax - 1) setter;
              topic_time = time;
            }));
        stats =
            set w.store.stats c.stats
              (record st { topic_count = (st.topic_count + 1) % 2 ^ 32; topiccounttime = time });
      };
    })

  abbrev pub on_topic : World → List CString → Option ℕ → Option World
  unfolding set_topic
  on_topic w av none = some w
  on_topic w [] (some a) = none
  on_topic w (author ∷ av) (some a) = set_topic w a author av

  unfoldable pub do_topic : World → List CString → Option World
  unfolding findchan on_topic
  do_topic w [] = none
  do_topic w (chan ∷ av) = findchan w.store (some chan) >>= on_topic w av

  set_topic-none :
      (w : World) (a : ℕ) (c : Channel) (author : CString) (av : List CString)
      → w.store.heap a ≡ some c
      → setter_of author ≡ none
      → set_topic w a author av ≡ none
  unfolding set_topic
  set_topic-none w a c author av e n = bind-some _ e ∙ bind-none _ n

  set_topic-Goes :
      (w : World)
      → IsSound w.chans w.store
      → (a : ℕ) (c : Channel) → w.store.heap a ≡ some c
      → (author setter : CString) (av : List CString) → setter_of author ≡ some setter
      → (w' : World) × (set_topic w a author av ≡ some w')
        × IsSound w'.chans w'.store
        × (view w' ≡ view w)
        × ((c' : Channel) × (w'.store.heap a ≡ some c')
            × (c'.topic ≡ topic_of av)
            × (c'.topic_time ≡ topic_time_of av))
  unfolding set_topic
  set_topic-Goes w v a c e author setter av k =
      let s = w.store in
      let (st, es) = get_elem?-lt s.stats c.stats (v.counts a c e) in
      let time = topic_time_of av in
      let c' = record c {
        topic = topic_of av;
        topic_setter = take (nickmax - 1) setter;
        topic_time = time;
      } in
      let v' =
        IsStore-update w.chans w.chans s.chanlist s.heap s.free (length s.stats) s.chans a c v e c'
          refl refl
          (λ u b.
            write_cases (λ b o. occurs b (w.chans u) ≡ occurs u (users_of o)) s.heap a (some c') b
              (v.both u a ∙ rw e refl) (λ q. v.both u b)) in
      let st' = record st { topic_count = (st.topic_count + 1) % 2 ^ 32; topiccounttime = time } in
      let s' : Chans = record s {
        heap = write s.heap a (some c');
        stats = set s.stats c.stats st';
      } in
      let v'' : IsSound w.chans s' = rw (length-set s.stats c.stats st') v' in
      (
        _,
        bind-some _ e ∙ bind-some _ k ∙ bind-some _ es,
        v'',
        keys-IsSound s.heap w.chans s' v'' (Names-write-some s.heap a c c' e refl),
        (c', write_same s.heap a (some c'), refl, refl),
      )

found_at :
    (w : World)
    → IsSound w.chans w.store
    → (chan : CString) (a : ℕ) → findchan w.store (some chan) ≡ some (some a)
    → Live w.store.heap (some a)
found_at w v chan a at =
    let (o, e, live) = findchan-Live w.chans w.store v chan in
    subst (Live w.store.heap) (ap (of_some none) (sym e ∙ at)) live

setter_of-mask : (s : CString) → mem b'!' s ≡ true → setter_of s ≡ str_get_token s b'!' 0
unfolding setter_of
setter_of-mask s m = rw m refl

first_of_fields :
    (x : ℕ) (s f : CString) (fs : List CString)
    → (x == b'!') ≡ false
    → fields b'!' s ≡ f ∷ fs
    → fields b'!' (x ∷ s) ≡ (x ∷ f) ∷ fs
unfolding fields prepend
first_of_fields x s f fs q e = rw (q, e) refl

setter_of_total :
    (x : ℕ) (author : CString)
    → (x == b'!') ≡ false
    → (setter : CString) × (setter_of (x ∷ author) ≡ some setter)
unfolding setter_of
setter_of_total x author q = elim (Bool-cases (mem b'!' (x ∷ author))) [
  | inl m ↦
      let (f, fs, e) = fields-cons b'!' author in
      (
        x ∷ f,
        setter_of-mask (x ∷ author) m
            ∙ str_get_token-fields (x ∷ author) b'!' 0
            ∙ ap first_field (first_of_fields x author f fs q e),
      )
  | inr m ↦ rw m (x ∷ author, refl)
]

module _ (base64dec_ts strtoul : CString → ℕ) (sjb64 : Bool) (now : ℕ) where
  on_topic-IsSound :
      (w w' : World)
      → IsSound w.chans w.store
      → (av : List CString) (o : Option ℕ) → Live w.store.heap o
      → on_topic base64dec_ts strtoul sjb64 now w av o ≡ some w'
      → IsSound w'.chans w'.store
  unfolding on_topic
  on_topic-IsSound w w' v av none live e = subst (λ w. IsSound w.chans w.store) (ap (of_some w) e) v
  on_topic-IsSound w w' v [] (some a) live e = absurd (ground (arith, e))
  on_topic-IsSound w w' v (author ∷ av) (some a) (c, ec) e =
      elim (Option-cases (setter_of author)) [
        | inl n ↦ absurd (
            let z = sym (set_topic-none base64dec_ts strtoul sjb64 now w a c author av ec n) ∙ e in
            ground (arith, z))
        | inr (setter, k) ↦
            let (w'', f, v', same, t) =
              set_topic-Goes base64dec_ts strtoul sjb64 now w v a c ec author setter av k in
            subst (λ w. IsSound w.chans w.store) (ap (of_some w) (sym f ∙ e)) v'
      ]

  -- A TOPIC keeps the store sound, whatever its arguments are, if it returns.
  pub do_topic-IsSound :
      (w w' : World)
      → IsSound w.chans w.store
      → (av : List CString) → do_topic base64dec_ts strtoul sjb64 now w av ≡ some w'
      → IsSound w'.chans w'.store
  unfolding do_topic
  do_topic-IsSound w w' v [] e = absurd (ground (arith, e))
  do_topic-IsSound w w' v (chan ∷ av) e =
      let (o, eo, live) = findchan-Live w.chans w.store v chan in
      on_topic-IsSound w w' v av o live (sym (bind-some _ eo) ∙ e)

  -- In a store that is sound, let `findchan` find the channel of the name that a TOPIC is for, and
  -- let the author not begin with !. Then a TOPIC with four arguments or more does not fault,
  -- leaves a store that is sound, in which the channel has the fourth argument as its topic and the
  -- third one, read as a time, as the time of it, and moves no user.
  pub do_topic-topic :
      (w : World)
      → IsSound w.chans w.store
      → (chan : CString) (a x : ℕ) (author ts topic : CString) (av : List CString)
      → findchan w.store (some chan) ≡ some (some a)
      → (x == b'!') ≡ false
      → (w' : World) × (do_topic base64dec_ts strtoul sjb64 now w
            (chan ∷ (x ∷ author) ∷ ts ∷ topic ∷ av)
          ≡ some w')
        × IsSound w'.chans w'.store
        × (view w' ≡ view w)
        × ((c : Channel) × (w'.store.heap a ≡ some c)
            × (c.topic ≡ some topic)
            × (c.topic_time ≡ (if sjb64 && starts_bang ts then base64dec_ts ts else strtoul ts)))
  unfolding do_topic on_topic
  do_topic-topic w v chan a x author ts topic av at q =
      let (c, e) = found_at w v chan a at in
      let (setter, k) = setter_of_total x author q in
      let (w', j, v', same, t) =
        set_topic-Goes base64dec_ts strtoul sjb64 now w v a c e (x ∷ author) setter
          (ts ∷ topic ∷ av) k in
      (w', bind-some _ at ∙ j, v', same, t)
