-- ===== src/Derive/Contract.antt =====
-- The code that round-based-derive/src/lib.rs generates keeps the contract of `ProtocolMsg` and
-- `RoundMsg`.
use round_based.Prelude.{
  ℕ, zero, suc, ◌+◌, ◌≤◌, ◌≡◌, ◌≢◌, ◌↔◌, refl, sym, ap, ◌∙◌, inl, inr, true, false, Option, some,
  List, [], ◌∷◌, arith, get_elem?, get_elem?-lt, length, ok, ◌==◌, if◌then◌else◌, Bool-cases,
  u16_mod,
}
use round_based.Derive.{
  Ident, Ty, Fields, unit, named, unnamed, Variant, an_enum, CompileError, unit_variant,
  named_variant, not_one_field, RoundArm, refuses, RoundMsgImpl, next16, round_arm, round_method,
  round_msg, round_msgs, Expansion, expand, Value, round, to_protocol_msg, from_protocol_msg,
}

-- A variant of one unnamed field.
abbrev pub HasOneField : Variant → Type 0
HasOneField v = (ty : Ty) × (v.fields ≡ unnamed (ty ∷ []))

abbrev pub IsFresh : Ident → List Variant → Type 0
IsFresh ident [] = Unit {0}
IsFresh ident (v ∷ vs) = (v.ident ≢ ident) × IsFresh ident vs

-- What `rustc` and the macro ask of the variants: one field each, and different names.
abbrev pub IsProtocol : List Variant → Type 0
IsProtocol [] = Unit {0}
IsProtocol (v ∷ vs) = HasOneField v × IsFresh v.ident vs × IsProtocol vs

fresh_at :
    (ident : Ident) (vs : List Variant) (k : ℕ) (v : Variant)
    → IsFresh ident vs
    → get_elem? vs k ≡ some v
    → ident ≢ v.ident
fresh_at ident [] k v f e = ground arith
fresh_at ident (x ∷ vs) zero v f e = ground (arith, f.0)
fresh_at ident (x ∷ vs) (suc k) v f e = fresh_at ident vs k v f.1 e

round_head :
    (i : ℕ) (v : Variant) (arms : List RoundArm) (value : Value)
    → HasOneField v
    → round (round_arm i v ∷ arms) value
      ≡ (if v.ident == value.variant then some i else round arms value)
unfolding round round_arm
round_head i v arms value (ty, e) = rw (e, round_arm) refl

-- The arm of the `k`-th variant gives `k`, counted from the first number.
round_at :
    (i k : ℕ) (vs : List Variant) (v : Variant) (value : Value)
    → IsProtocol vs
    → i + length vs ≤ u16_mod
    → get_elem? vs k ≡ some v
    → value.variant ≡ v.ident
    → round (round_method i vs) value ≡ some (i + k)
unfolding round_method
round_at i k [] v value p fits e same = ground arith
round_at i zero (x ∷ vs) v value (one, fresh, p) fits e same =
    let here : (x.ident == value.variant) ≡ true = ground arith in
    round_head i x (round_method (next16 i) vs) value one ∙ rw here (ground arith)
round_at i (suc k) (x ∷ vs) v value (one, fresh, p) fits e same =
    let inside = get_elem?-lt vs k v e in
    let there : (x.ident == value.variant) ≡ false =
      ground (arith, fresh_at x.ident vs k v fresh e) in
    round_head i x (round_method (next16 i) vs) value one
    ∙ rw there
        (round_at (next16 i) k vs v value p (omega arith) e same ∙ ap (λ x. some x) (omega arith))

impls_head :
    (i : ℕ) (v : Variant) (vs : List Variant) (one : HasOneField v)
    → round_msgs i (v ∷ vs)
      ≡ record { msg_type = one.0; round = i; variant = v.ident } ∷ round_msgs (next16 i) vs
unfolding round_msgs round_msg
impls_head i v vs (ty, e) = rw (e, round_msg) refl

-- The `k`-th implementation is that of the `k`-th variant.
abbrev IsImplOf : ℕ → RoundMsgImpl → Variant → Type 0
IsImplOf i m v = (m.round ≡ i) × (m.variant ≡ v.ident) × (v.fields ≡ unnamed (m.msg_type ∷ []))

impl_at :
    (i k : ℕ) (vs : List Variant) (m : RoundMsgImpl)
    → IsProtocol vs
    → i + length vs ≤ u16_mod
    → get_elem? (round_msgs i vs) k ≡ some m
    → (v : Variant) × (get_elem? vs k ≡ some v) × IsImplOf (i + k) m v
impl_at i k [] m p fits e = unfold round_msgs in (ground arith)
impl_at i zero (x ∷ vs) m (one, fresh, p) fits e =
    let e' : some (record { msg_type = one.0; round = i; variant = x.ident }) ≡ some m =
      ap (λ l. get_elem? l 0) (sym (impls_head i x vs one)) ∙ e in
    (x, refl, (ground (arith, e'), ground (arith, e'), one.1 ∙ ground (arith, e')))
impl_at i (suc k) (x ∷ vs) m (one, fresh, p) fits e =
    let e' : get_elem? (round_msgs (next16 i) vs) k ≡ some m =
      ap (λ l. get_elem? l (suc k)) (sym (impls_head i x vs one)) ∙ e in
    let fewer : next16 i + length vs ≤ u16_mod = omega arith in
    let (v, at, (number, name, ty)) = impl_at (next16 i) k vs m p fewer e' in
    let inside = get_elem?-lt vs k v at in (v, at, (number ∙ omega arith, name, ty))

-- A value of the enum.
abbrev pub IsValueOf : List Variant → Value → Type 0
IsValueOf vs value = (j : ℕ) × (v : Variant) × (get_elem? vs j ≡ some v) × (value.variant ≡ v.ident)

from_protocol_msg_iff :
    (m : RoundMsgImpl) (value : Value)
    → ((field : ℕ) × (from_protocol_msg m value ≡ ok field)) ↔ (value.variant ≡ m.variant)
unfolding from_protocol_msg
from_protocol_msg_iff m value = elim (Bool-cases (m.variant == value.variant)) [
  | inl same ↦ rw same ((λ _. ground arith), λ _. (value.field, refl))
  | inr other ↦ rw other ((λ (f, e). ground arith), λ e. ground arith)
]

-- Let an enum have at most 2^16 variants, each with one unnamed field, and no two of one name. Then
-- the implementation that is generated for the `k`-th variant, counted from 0, has the round number
-- `k`; a message that it converts into the enum has that round and is converted back to itself; and
-- a value of the enum has that round exactly when the implementation converts it.
pub expand-contract :
    (vs : List Variant) (root : Option Ident) (expansion : Expansion) (k : ℕ) (m : RoundMsgImpl)
    → IsProtocol vs
    → length vs ≤ u16_mod
    → expand (an_enum vs) root ≡ ok expansion
    → get_elem? expansion.impls k ≡ some m
    → (m.round ≡ k)
      × ((field : ℕ) → round expansion.round (to_protocol_msg m field) ≡ some m.round)
      × ((field : ℕ) → from_protocol_msg m (to_protocol_msg m field) ≡ ok field)
      × ((value : Value)
          → IsValueOf vs value
          → (round expansion.round value ≡ some m.round)
            ↔ ((field : ℕ) × (from_protocol_msg m value ≡ ok field)))
unfolding expand
expand-contract vs root expansion k m p fits e at =
    let arms : round_method 0 vs ≡ expansion.round = ground (arith, e) in
    let impls : round_msgs 0 vs ≡ expansion.impls = ground (arith, e) in
    let (v, at_v, (number, name, _)) =
      impl_at 0 k vs m p (omega arith) (ap (λ l. get_elem? l k) impls ∙ at) in
    let own : (value : Value)
        → value.variant ≡ v.ident
        → round expansion.round value ≡ some m.round =
      λ value same.
        ap (λ a. round a value) (sym arms)
        ∙ round_at 0 k vs v value p (omega arith) at_v same
        ∙ ap (λ x. some x) (sym number) in
    (
      number ∙ omega arith,
      (λ field. own (to_protocol_msg m field) name),
      (λ field. unfold from_protocol_msg in (ground arith)),
      λ value (j, w, at_w, same_w). (
        (λ h.
            let there = ap (λ a. round a value) (sym arms) in
            let found = round_at 0 j vs w value p (omega arith) at_w same_w in
            let both : some (0 + j) ≡ some m.round = sym found ∙ ap (λ a. round a value) arms ∙ h in
            let index : j ≡ k = ground (arith, both, number) in
            let same : w ≡ v = ground (arith, sym at_w ∙ ap (get_elem? vs) index ∙ at_v) in
            (from_protocol_msg_iff m value).1 (same_w ∙ ap (λ x. x.ident) same ∙ sym name)),
        (λ h. own value ((from_protocol_msg_iff m value).0 h ∙ name)),
      ),
    )

round_arm_iff :
    (i : ℕ) (v : Variant)
    → ((e : CompileError) × (round_arm i v ≡ refuses v.ident e)) ↔ ¬ HasOneField v
unfolding round_arm
round_arm_iff i v = fields_iff v.fields refl
  where
    fields_iff :
        (f : Fields)
        → v.fields ≡ f
        → ((e : CompileError) × (round_arm i v ≡ refuses v.ident e)) ↔ ¬ HasOneField v
    fields_iff unit e =
        (λ _ (ty, one). ground (arith, sym e ∙ one), λ _. (unit_variant, rw (e, round_arm) refl))
    fields_iff (named tys) e =
        (λ _ (ty, one). ground (arith, sym e ∙ one), λ _. (named_variant, rw (e, round_arm) refl))
    fields_iff (unnamed []) e =
        (λ _ (ty, one). ground (arith, sym e ∙ one), λ _. (not_one_field, rw (e, round_arm) refl))
    fields_iff (unnamed (ty ∷ [])) e =
        (λ (x, q) _. ground (arith, rw (e, round_arm) at q), λ no_field. absurd (no_field (ty, e)))
    fields_iff (unnamed (ty ∷ ty' ∷ rest)) e =
        (λ _ (ty'', one). ground (arith, sym e ∙ one), λ _. (not_one_field, rw (e, round_arm) refl))

arm_at :
    (i k : ℕ) (vs : List Variant) (v : Variant)
    → get_elem? vs k ≡ some v
    → (j : ℕ) × (get_elem? (round_method i vs) k ≡ some (round_arm j v))
unfolding round_method
arm_at i k [] v e = ground arith
arm_at i zero (x ∷ vs) v e = (i, ground (arith, e))
arm_at i (suc k) (x ∷ vs) v e = arm_at (next16 i) k vs v e

-- The generated `round` has an error of compilation in the place of a variant exactly when the
-- variant does not have one unnamed field.
pub expand-refuses_iff :
    (vs : List Variant) (root : Option Ident) (expansion : Expansion) (k : ℕ) (v : Variant)
    → expand (an_enum vs) root ≡ ok expansion
    → get_elem? vs k ≡ some v
    → ((e : CompileError) × (get_elem? expansion.round k ≡ some (refuses v.ident e)))
      ↔ ¬ HasOneField v
unfolding expand
expand-refuses_iff vs root expansion k v e at =
    let arms : round_method 0 vs ≡ expansion.round = ground (arith, e) in
    let (j, arm) = arm_at 0 k vs v at in
    let here = ap (λ l. get_elem? l k) (sym arms) ∙ arm in
    (
      (λ (x, q).
          let same : some (round_arm j v) ≡ some (refuses v.ident x) = sym here ∙ q in
          (round_arm_iff j v).0 (x, ground (arith, same))),
      (λ no_field. let (x, q) = (round_arm_iff j v).1 no_field in (x, here ∙ ap (λ a. some a) q)),
    )
