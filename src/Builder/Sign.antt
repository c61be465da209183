-- ===== src/Builder/Sign.antt =====
-- preconfirmation/src/taiko/sign.rs: the signature of the anchor transaction, with a fixed k.
use taiko_preconfer.Prelude.{
  ℕ, ◌≤◌, ◌≡◌, ◌⊎◌, inl, inr, subst, refl, arith, Bool, true, false, Option, none, some, unwrap_or,
  Option-cases,
}
use taiko_preconfer.Prelude.Outcome.{Outcome, ok, err, panic, ◌>>=◌, >>=-eq-ok}
use taiko_preconfer.Builder.{TypedTransaction, or, sign_anchor_tx}

pub record Signature : Type 0 where
  pub r : ℕ
  pub s : ℕ
  pub is_odd : Bool

-- What k256 does: `S` is its signature. `normalize_s` gives the signature with the low s, if s is high.
pub record Ecdsa (E S : Type 0) : Type 0 where
  pub sign_prehashed : TypedTransaction → ℕ → Outcome E S
  pub normalize_s : S → Option S
  pub r_of : S → ℕ
  pub s_of : S → ℕ

-- A choice that returns took the first outcome, or the second after an error of the first.
pub or-eq-ok :
    {E A : Type 0} (first second : Outcome E A) (a : A)
    → or first second ≡ ok a
    → (first ≡ ok a) ⊎ (((e : E) × (first ≡ err e)) × (second ≡ ok a))
unfolding or
or-eq-ok panic second a h = cc
or-eq-ok (ok b) panic a h = cc
or-eq-ok (ok b) (ok b') a h = inl h
or-eq-ok (ok b) (err e) a h = inl h
or-eq-ok (err e) second a h = inr ((e, refl), h)

module _ {E S : Type 0} (c : Ecdsa E S) where
  unfoldable pub sign_with_fixed_k : TypedTransaction → ℕ → Outcome E Signature
  sign_with_fixed_k tx k = do
    signature ← c.sign_prehashed tx k
    let normalized = c.normalize_s signature
    ok (record {
      r = c.r_of signature;
      s = c.s_of (unwrap_or normalized signature);
      is_odd = elim normalized [ none ↦ false | some low ↦ true ];
    })

  -- The transaction with its signature.
  unfoldable pub get_signed : TypedTransaction → Outcome E (TypedTransaction × Signature)
  unfolding sign_with_fixed_k
  get_signed tx = sign_anchor_tx sign_with_fixed_k tx >>= λ sig. ok (tx, sig)

  -- The signature that k gives, brought to its low s.
  pub record IsLow (half : ℕ) (tx : TypedTransaction) (k : ℕ) (sig : Signature) : Type 0 where
    pub signature : S
    pub signed : c.sign_prehashed tx k ≡ ok signature
    pub r_lem : sig.r ≡ c.r_of signature
    pub low : sig.s ≤ half

  module _ (half : ℕ) (is_low : (x : S) → c.normalize_s x ≡ none → c.s_of x ≤ half)
      (is_lowered : (x y : S) → c.normalize_s x ≡ some y → c.s_of y ≤ half) where
    normalized_lem : (x : S) → c.s_of (unwrap_or (c.normalize_s x) x) ≤ half
    normalized_lem x = elim (Option-cases (c.normalize_s x)) [
      | inl e ↦ rw e (is_low x e)
      | inr (y, e) ↦ rw e (is_lowered x y e)
    ]

    sign_with_fixed_k-IsLow :
        (tx : TypedTransaction) (k : ℕ) (sig : Signature)
        → sign_with_fixed_k tx k ≡ ok sig
        → IsLow half tx k sig
    unfolding sign_with_fixed_k
    sign_with_fixed_k-IsLow tx k sig h =
        let (x, signed, h1) = >>=-eq-ok (c.sign_prehashed tx k) _ h in
        record {
          signature = x;
          signed = signed;
          r_lem = ground arith;
          low =
              let same : c.s_of (unwrap_or (c.normalize_s x) x) ≡ sig.s = ground arith in
              subst (λ s. s ≤ half) same (normalized_lem x);
        }

    -- k = 1 made the signature; or it failed, and k = 2 made it.
    abbrev pub IsSigned : TypedTransaction → Signature → Type 0
    IsSigned tx sig =
        IsLow half tx 1 sig ⊎ (IsLow half tx 2 sig × ((e : E) × (sign_with_fixed_k tx 1 ≡ err e)))

    sign_anchor_tx-IsSigned :
        (tx : TypedTransaction) (sig : Signature)
        → sign_anchor_tx sign_with_fixed_k tx ≡ ok sig
        → IsSigned tx sig
    unfolding sign_anchor_tx
    sign_anchor_tx-IsSigned tx sig h =
        elim (or-eq-ok (sign_with_fixed_k tx 1) (sign_with_fixed_k tx 2) sig h) [
          | inl first ↦ inl (sign_with_fixed_k-IsLow tx 1 sig first)
          | inr (failed, second) ↦ inr (sign_with_fixed_k-IsLow tx 2 sig second, failed)
        ]

    -- A transaction that is signed keeps its content, and its signature has a low s, which other nodes
    -- ask for. It is made with k = 1; or with k = 2, and then k = 1 has failed. k256 is assumed to answer
    -- with the low s where it changes a signature, and to change each one with a high s.
    pub get_signed-IsSigned :
        (tx tx' : TypedTransaction) (sig : Signature)
        → get_signed tx ≡ ok (tx', sig)
        → (tx' ≡ tx) × IsSigned tx sig
    unfolding get_signed
    get_signed-IsSigned tx tx' sig h =
        let (found, signed, h1) = >>=-eq-ok (sign_anchor_tx sign_with_fixed_k tx) _ h in
        let same : found ≡ sig = ground arith in
        (ground arith, subst (IsSigned tx) same (sign_anchor_tx-IsSigned tx found signed))
