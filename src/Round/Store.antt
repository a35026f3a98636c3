-- ===== src/Round/Store.antt =====
-- round-based/src/round/mod.rs: the traits `RoundInfo` and `RoundStore` as a record of operations,
-- and `WithProp`, which adds a property to a store.
pub mod Props
use round_based.Prelude.{
  ℕ, ◌≡◌, Bool, true, false, Option, none, some, Result, ok, err, map_err, subst, refl,
}
use round_based.Delivery.{Incoming}

-- The types that a property may have. `read_any_prop` tells them apart as `downcast_mut` does; the
-- types that a user of the library adds are numbered, and their values are numbers.
pub data PropType : Type 0 where
  requires_reliable_broadcast : PropType
  user_defined : ℕ → PropType

abbrev pub PropValue : PropType → Type 0
PropValue requires_reliable_broadcast = Bool
PropValue (user_defined _) = ℕ

-- `add_message` updates the store also where it returns an error.
pub record RoundStore : Type 1 where
  pub Msg : Type 0
  pub Output : Type 0
  pub Error : Type 0
  pub Store : Type 0
  pub add_message : Store → Incoming Msg → Store × Result (Unit {0}) Error
  pub wants_more : Store → Bool
  pub output : Store → Result Output Store
  pub read_any_prop : Store → (p : PropType) → Option (PropValue p)

-- The trait's contract: a store that wants no more messages has an output.
pub record IsProper (S : RoundStore) : Type 0 where
  pub outputs : (s : S.Store) → S.wants_more s ≡ false → (o : S.Output) × (S.output s ≡ ok o)

-- `RoundStoreExt::read_prop`: what `read_any_prop` leaves in an empty slot.
abbrev pub read_prop : (S : RoundStore) → S.Store → (p : PropType) → Option (PropValue p)
read_prop S s p = S.read_any_prop s p

pub record WithProp (p : PropType) (S : RoundStore) : Type 0 where
  pub prop : PropValue p
  pub store : S.Store

module _ (p : PropType) (S : RoundStore) (same : Discrete PropType) where
  -- `RoundStoreExt::set_prop`
  unfoldable pub set_prop : S.Store → PropValue p → WithProp p S
  set_prop s value = record { prop = value; store = s }

  unfoldable pub read_with_prop : WithProp p S → (q : PropType) → Option (PropValue q)
  read_with_prop w q = elim (same p q) [
    | yes e ↦ some (subst PropValue e w.prop)
    | no _ ↦ S.read_any_prop w.store q
  ]

  abbrev pub with_prop : RoundStore
  with_prop = record {
    Msg = S.Msg;
    Output = S.Output;
    Error = S.Error;
    Store = WithProp p S;
    add_message =
        λ w msg. let (s, r) = S.add_message w.store msg in (record { prop = w.prop; store = s }, r);
    wants_more = λ w. S.wants_more w.store;
    output = λ w. map_err (λ s. record { prop = w.prop; store = s }) (S.output w.store);
    read_any_prop = read_with_prop;
  }
