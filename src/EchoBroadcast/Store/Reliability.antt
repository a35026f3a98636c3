-- ===== src/EchoBroadcast/Store/Reliability.antt =====
-- The reliability check of round-based/src/echo_broadcast/store.rs between two parties whose main round
-- is a `RoundInput`.
use mathlib.Core.Option
use round_based.Prelude.{
  ℕ, zero, suc, subst, ◌≤◌, ◌<◌, ◌≡◌, ◌≢◌, Bool, refl, sym, ap, ◌∙◌, Option, none, some, List,
  Result, ok, err, length, get_elem?, replicate, length-set, length-replicate, get_elem?-set_self,
  get_elem?-set_ne, get_elem?-replicate, arith, u16_mod, true, false,
}
use round_based.Delivery.{MessageType, broadcast}
use round_based.Round.SimpleStore.{RoundInput, RoundMsgs}
use round_based.Round.SimpleStore
use round_based.Round.SimpleStore.Invariant.{IsValid, received}
use round_based.Round.SimpleStore.Output.{new-IsValid, wants_more_iff}
use round_based.EchoBroadcast.Store.{
  Reliable, MainRound, NeedsOwnMsg, ReliabilityCheck, ongoing, output, new, finish, wants_more,
  with_my_msg, with_echo_output,
}
use round_based.EchoBroadcast.Store.Agreement.{
  IsCollisionFree, all_msgs, reliability_check-agreement,
}
use round_based.EchoBroadcast.Store.Mirror.{checked, Tracks, going_on, over}

true-ne-false : true ≡ false → ⊥
true-ne-false e = ground arith

some-injective : {A : Type 0} {x y : A} → some x ≡ some y → x ≡ y
some-injective e = ground arith

module _ {M ProtoMsg Hash : Type 0} (to_protocol_msg : M → ProtoMsg)
    (from_protocol_msg : ProtoMsg → Result M ProtoMsg) (r : ℕ)
    (hash : List (Option ProtoMsg) → ℕ → ℕ → Hash) (eq_hash : Hash → Hash → Bool) where
  abbrev E : Reliable
  E = checked to_protocol_msg from_protocol_msg r hash eq_hash

  abbrev Follows : MainRound E → Type 0
  Follows = Tracks to_protocol_msg from_protocol_msg r hash eq_hash

  another_party : (i n : ℕ) → 2 ≤ n → (j : ℕ) × (j < n) × (j ≢ i)
  another_party zero n h = (1, omega arith, λ e. omega arith)
  another_party (suc i) n h = (0, omega arith, λ e. omega arith)

  -- What is put into the hash for party `j`.
  abbrev pub held : RoundInput M → ℕ → Option ProtoMsg
  held s j = Option.map (λ e. to_protocol_msg e.1) (received s j)

  -- A main round that put something out: the store, its output and the messages.
  pub record Finished (w : NeedsOwnMsg E) (s : RoundInput M) : Type 0 where
    pub valid : IsValid s
    pub puts_out : SimpleStore.output s ≡ ok w.main_round_output
    pub index : s.i ≡ w.i
    pub parties : length w.received_msgs ≡ s.n
    pub same : (j : ℕ) → j ≢ w.i → j < s.n → get_elem? w.received_msgs j ≡ some (held s j)

  output-more : (s : RoundInput M) → SimpleStore.wants_more s ≡ true → SimpleStore.output s ≡ err s
  unfolding SimpleStore.output SimpleStore.wants_more
  output-more s h = simp h

  started :
      (i n : ℕ) (s : RoundInput M) (echoes : RoundInput Hash)
      → SimpleStore.new i n (broadcast false) ≡ some echoes
      → SimpleStore.output s ≡ err s
      → new E i n s
        ≡ some
            (record { i = i; n = n; state = ongoing s; received_msgs = replicate n none }, echoes)
  unfolding new
  started i n s echoes built more = rw (built, new) (rw (more, new))

  -- A main round over a store that has just been built starts to track it.
  pub new-Tracks :
      (i n : ℕ) (t : MessageType)
      → 2 ≤ n
      → i < n
      → n < u16_mod
      → (s : RoundInput M) × (w : MainRound E) × (echoes : RoundInput Hash) × (SimpleStore.new i n t
          ≡ some s)
        × (new E i n s ≡ some (w, echoes))
        × Follows w
  new-Tracks i n t two near fits =
      let (s, built, v, empty, index, parties, _) = new-IsValid {M = M} i n t two near fits in
      let (echoes, echoes_built, _, _, _, _, _) =
        new-IsValid {M = Hash} i n (broadcast false) two near fits in
      let (j, within, other) = another_party i n two in
      let no_msg : Option ProtoMsg = none in
      let more : SimpleStore.wants_more s ≡ true =
        (wants_more_iff s v).1
          (j, omega (arith, within, parties), λ e. other (e ∙ index), empty j) in
      (
        s,
        record { i = i; n = n; state = ongoing s; received_msgs = replicate n none },
        echoes,
        built,
        started i n s echoes echoes_built (output-more s more),
        going_on s refl (record {
          valid = v;
          index = index;
          parties = length-replicate n no_msg ∙ sym parties;
          same = λ k ne near'.
              get_elem?-replicate n k no_msg (omega (arith, near', parties))
              ∙ ap (λ x. some (Option.map (λ e. to_protocol_msg e.1) x)) (sym (empty k));
        }),
      )

  finish-ok :
      (w : MainRound E) (o : RoundMsgs M) (need : NeedsOwnMsg E)
      → w.state ≡ output o
      → finish E w ≡ ok need
      → need ≡ record { i = w.i; n = w.n; main_round_output = o; received_msgs = w.received_msgs }
  unfolding finish
  finish-ok w o need state e = ground arith

  finish-ongoing :
      (w : MainRound E) (s : RoundInput M) (need : NeedsOwnMsg E)
      → w.state ≡ ongoing s
      → finish E w ≢ ok need
  unfolding finish
  finish-ongoing w s need state e = ground arith

  -- What `finish` hands out is what a complete store received.
  finish-Finished :
      (w : MainRound E) (need : NeedsOwnMsg E)
      → Follows w
      → finish E w ≡ ok need
      → (s : RoundInput M) × Finished need s
  finish-Finished w need (going_on s state h) e = absurd (finish-ongoing w s need state e)
  finish-Finished w need (over s o state out h) e = (
    s,
    subst (λ x. Finished x s) (sym (finish-ok w o need state e))
        (record {
          valid = h.valid;
          puts_out = out;
          index = h.index;
          parties = h.parties;
          same = h.same;
        }),
  )

  state-over : (w : MainRound E) (s : RoundInput M) → w.state ≡ ongoing s → wants_more E w ≡ true
  unfolding wants_more
  state-over w s e = rw (e, wants_more) refl

  finish_at :
      (w : MainRound E) (o : RoundMsgs M)
      → w.state ≡ output o
      → finish E w
        ≡ ok (record { i = w.i; n = w.n; main_round_output = o; received_msgs = w.received_msgs })
  unfolding finish
  finish_at w o e = rw (e, finish) refl

  -- A main round that tracks its store and wants no more messages has an output: it hands out the
  -- output of a complete store, and of every other party the message that the store has received.
  pub finish_complete :
      (w : MainRound E)
      → Follows w
      → wants_more E w ≡ false
      → (need : NeedsOwnMsg E) × (s : RoundInput M) × (finish E w ≡ ok need) × Finished need s
  finish_complete w (going_on s state h) over_now =
      absurd (true-ne-false (sym (state-over w s state) ∙ over_now))
  finish_complete w (over s o state out h) over_now =
      let need : NeedsOwnMsg E = record {
        i = w.i;
        n = w.n;
        main_round_output = o;
        received_msgs = w.received_msgs;
      } in
      let (s', finished) = finish-Finished w need (over s o state out h) (finish_at w o state) in
      (need, s', finish_at w o state, finished)

  held_from :
      (w : NeedsOwnMsg E) (s : RoundInput M) (msg : Option M) (j : ℕ)
      → Finished w s
      → j ≢ w.i
      → j < s.n
      → get_elem? (all_msgs E w msg) j ≡ some (held s j)
  held_from w s msg j f ne near =
      get_elem?-set_ne w.received_msgs w.i j _ (λ e. ne (sym e)) ∙ f.same j ne near

  held_own :
      (w : NeedsOwnMsg E) (s : RoundInput M) (msg : Option M)
      → Finished w s
      → get_elem? (all_msgs E w msg) w.i ≡ some (Option.map to_protocol_msg msg)
  held_own w s msg f =
      get_elem?-set_self w.received_msgs w.i _
        (omega (arith, f.valid.own_index, f.index, f.parties))

  parties_agree :
      (a b : NeedsOwnMsg E) (sa sb : RoundInput M) (msg_a msg_b : Option M)
      → Finished a sa
      → Finished b sb
      → all_msgs E a msg_a ≡ all_msgs E b msg_b
      → sa.n ≡ sb.n
  parties_agree a b sa sb msg_a msg_b fa fb equal =
      sym fa.parties
      ∙ sym (length-set a.received_msgs a.i _)
      ∙ ap length equal
      ∙ length-set b.received_msgs b.i _
      ∙ fb.parties

  -- The guarantee of the reliability check. Let the hash be free of collisions, and let two main
  -- rounds of different parties track their stores and be over. If the check of party `b` passes,
  -- and one of its echoes is the hash that party `a` sent, then both stores have received the same
  -- from every third party, that of `b` has received from `a` what `a` sent, and the output is
  -- that of the store of `b`.
  pub main_round-agreement :
      IsCollisionFree E
      → (wa wb : MainRound E) (a b : NeedsOwnMsg E) (msg_a msg_b : Option M)
        (check_a check_b : ReliabilityCheck E) (hash_a hash_b : Hash) (echoes : RoundMsgs Hash)
        (k : ℕ) (o : RoundMsgs M)
      → Follows wa
      → Follows wb
      → finish E wa ≡ ok a
      → finish E wb ≡ ok b
      → a.i ≢ b.i
      → with_my_msg E a msg_a ≡ ok (check_a, hash_a)
      → with_my_msg E b msg_b ≡ ok (check_b, hash_b)
      → get_elem? echoes.messages k ≡ some hash_a
      → with_echo_output E check_b echoes ≡ ok o
      → (sa sb : RoundInput M) × ((j : ℕ) → j ≢ a.i → j ≢ b.i → j < sa.n → held sa j ≡ held sb j)
        × (held sb a.i ≡ Option.map to_protocol_msg msg_a)
        × ((SimpleStore.output sa ≡ ok a.main_round_output) × IsValid sa × (sa.i ≡ a.i))
        × ((SimpleStore.output sb ≡ ok o) × IsValid sb × (sb.i ≡ b.i))
  main_round-agreement safe wa wb a b msg_a msg_b check_a check_b hash_a hash_b echoes k o ta tb
        enda endb apart sent_a sent_b heard passed =
      let (sa, fa) = finish-Finished wa a ta enda in
      let (sb, fb) = finish-Finished wb b tb endb in
      let (equal, out) =
        reliability_check-agreement E safe a b msg_a msg_b check_a check_b hash_a hash_b echoes k o
          sent_a sent_b heard passed in
      let n_same = parties_agree a b sa sb msg_a msg_b fa fb equal in
      let at = λ (j : ℕ). ap (λ ms. get_elem? ms j) equal in
      (
        sa,
        sb,
        λ j not_a not_b near. some-injective (
            sym (held_from a sa msg_a j fa not_a near)
            ∙ at j
            ∙ held_from b sb msg_b j fb not_b (omega (arith, near, n_same))),
        some-injective (
            sym (
              held_from b sb msg_b a.i fb apart
                (omega (arith, fa.valid.own_index, fa.index, n_same)))
            ∙ sym (at a.i)
            ∙ held_own a sa msg_a fa),
        (fa.puts_out, fa.valid, fa.index),
        (fb.puts_out ∙ ap (λ x. ok x) (sym out), fb.valid, fb.index),
      )
