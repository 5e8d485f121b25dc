-- ===== src/Base/Order.antt =====
-- `Ordering` and the laws of a comparison on the values that it is used for.
use Prim.Native.Nat.{ℕ, compare, Ordering}
use Prim.Native.Nat.Ordering.{lt, eq, gt}
use mathlib.Core.Path.{◌≡◌, refl, sym, ap, ◌∙◌}
use mathlib.Core.Bool.{Bool, true, false}
use mathlib.Core.List.{List, [], ◌∷◌}
use Prim.Native.Nat.{◌+◌}
use native.Mathlib.Omega.{arith}
use r_search.Base.Int.{ℤ, pos_part, neg_part}

abbrev pub or_then : Ordering → Ordering → Ordering
or_then eq second = second
or_then first second = first

abbrev pub reverse : Ordering → Ordering
reverse lt = gt
reverse eq = eq
reverse gt = lt

abbrev pub is_lt : Ordering → Bool
is_lt lt = true
is_lt o = false

abbrev pub cmp_ℤ : ℤ → ℤ → Ordering
cmp_ℤ a b = compare (pos_part a + neg_part b) (pos_part b + neg_part a)

-- `str` compares by bytes, the shorter first.
abbrev pub cmp_bytes : List ℕ → List ℕ → Ordering
cmp_bytes [] [] = eq
cmp_bytes [] (b ∷ bs) = lt
cmp_bytes (a ∷ as_) [] = gt
cmp_bytes (a ∷ as_) (b ∷ bs) = let rest = cmp_bytes as_ bs in or_then (compare a b) rest

abbrev pub cmp_Bool : Bool → Bool → Ordering
cmp_Bool false true = lt
cmp_Bool true false = gt
cmp_Bool a b = eq

-- A comparison that orders the values of `P` into ranks.
pub record IsWeak {ℓ κ} {A : Type ℓ} (P : A → Type κ) (cmp : A → A → Ordering) : Type (ℓ ⊔ κ) where
  pub anti : (a b : A) → P a → P b → cmp b a ≡ reverse (cmp a b)
  pub same : (a b c : A) → P a → P b → P c → cmp a b ≡ eq → cmp a c ≡ cmp b c
  pub trans : (a b c : A) → P a → P b → P c → cmp a b ≡ lt → cmp b c ≡ lt → cmp a c ≡ lt

abbrev pub Any {ℓ} : {A : Type ℓ} → A → Type 0
Any a = Unit

pub compare-IsWeak : IsWeak Any compare
compare-IsWeak = record {
  anti = λ a b p q. ground arith;
  same = λ a b c p q r h. ground arith;
  trans = λ a b c p q r h k. ground arith;
}

pub cmp_ℤ-IsWeak : IsWeak Any cmp_ℤ
cmp_ℤ-IsWeak = record {
  anti = λ a b p q. ground arith;
  same = λ a b c p q r h. ground arith;
  trans = λ a b c p q r h k. ground arith;
}

pub newest-IsWeak : IsWeak Any (λ a b. cmp_ℤ b a)
newest-IsWeak = record {
  anti = λ a b p q. ground arith;
  same = λ a b c p q r h. ground arith;
  trans = λ a b c p q r h k. ground arith;
}

pub cmp_Bool-IsWeak : IsWeak Any cmp_Bool
cmp_Bool-IsWeak = record {
  anti = λ a b p q. ground arith;
  same = λ a b c p q r h. ground arith;
  trans = λ a b c p q r h k. ground arith;
}

module _ {ℓ κ} {A : Type ℓ} (P : A → Type κ) (f g : A → A → Ordering) (v : IsWeak P f)
    (w : IsWeak P g) where
  pub or_then-IsWeak : IsWeak P (λ a b. or_then (f a b) (g a b))
  or_then-IsWeak = record {
    anti = λ a b p q. ground (arith, v.anti a b p q, w.anti a b p q);
    same = λ a b c p q r h. ground (arith, v.same a b c p q r, w.same a b c p q r);
    trans = λ a b c p q r h k. ground (
      arith,
      v.same a b c p q r,
      v.same b c a q r p,
      v.anti a b p q,
      v.anti a c p r,
      v.anti b c q r,
      v.trans a b c p q r,
      w.trans a b c p q r,
    );
  }

module _ {ℓ κ} {A : Type ℓ} (P : A → Type κ) (f : A → A → Ordering) (v : IsWeak P f) where
  pub reverse-IsWeak : IsWeak P (λ a b. reverse (f a b))
  reverse-IsWeak = record {
    anti = λ a b p q. ground (arith, v.anti a b p q);
    same = λ a b c p q r h. ground (arith, v.same a b c p q r);
    trans = λ a b c p q r h k.
        ground (arith, v.anti a b p q, v.anti b c q r, v.anti a c p r, v.trans c b a r q p);
  }

cmp_bytes-anti : (a b : List ℕ) → cmp_bytes b a ≡ reverse (cmp_bytes a b)
cmp_bytes-anti [] [] = refl
cmp_bytes-anti [] (b ∷ bs) = refl
cmp_bytes-anti (a ∷ xs) [] = refl
cmp_bytes-anti (a ∷ xs) (b ∷ bs) = ground (arith, cmp_bytes-anti xs bs)

cmp_bytes-same : (a b c : List ℕ) → cmp_bytes a b ≡ eq → cmp_bytes a c ≡ cmp_bytes b c
cmp_bytes-same [] [] c h = refl
cmp_bytes-same [] (b ∷ bs) c h = absurd (grind arith)
cmp_bytes-same (a ∷ xs) [] c h = absurd (grind arith)
cmp_bytes-same (a ∷ xs) (b ∷ bs) [] h = refl
cmp_bytes-same (a ∷ xs) (b ∷ bs) (c ∷ cs) h = ground (arith, cmp_bytes-same xs bs cs)

cmp_bytes_trans : (a b c : List ℕ) → cmp_bytes a b ≡ lt → cmp_bytes b c ≡ lt → cmp_bytes a c ≡ lt
cmp_bytes_trans [] [] c h k = absurd (grind arith)
cmp_bytes_trans [] (b ∷ bs) [] h k = absurd (grind arith)
cmp_bytes_trans [] (b ∷ bs) (c ∷ cs) h k = refl
cmp_bytes_trans (a ∷ xs) [] c h k = absurd (grind arith)
cmp_bytes_trans (a ∷ xs) (b ∷ bs) [] h k = absurd (grind arith)
cmp_bytes_trans (a ∷ xs) (b ∷ bs) (c ∷ cs) h k = ground (arith, cmp_bytes_trans xs bs cs)

pub cmp_bytes-IsWeak : IsWeak Any cmp_bytes
cmp_bytes-IsWeak = record {
  anti = λ a b p q. cmp_bytes-anti a b;
  same = λ a b c p q r. cmp_bytes-same a b c;
  trans = λ a b c p q r. cmp_bytes_trans a b c;
}

module _ {ℓ κ} {A : Type ℓ} (P : A → Type κ) (f g : A → A → Ordering) where
  -- The laws pass to a comparison that agrees on the values.
  pub IsWeak-agree : ((a b : A) → P a → P b → f a b ≡ g a b) → IsWeak P g → IsWeak P f
  IsWeak-agree e v = record {
    anti = λ a b p q. e b a q p ∙ (v.anti a b p q ∙ ap reverse (sym (e a b p q)));
    same =
        λ a b c p q r h. e a c p r ∙ (v.same a b c p q r (sym (e a b p q) ∙ h) ∙ sym (e b c q r));
    trans = λ a b c p q r h k.
        e a c p r ∙ v.trans a b c p q r (sym (e a b p q) ∙ h) (sym (e b c q r) ∙ k);
  }

module _ {ℓ κ μ ν} {A : Type ℓ} {B : Type κ} (P : A → Type μ) (Q : B → Type ν)
    (cmp : B → B → Ordering) (f : A → B) where
  -- Values compare by what a function gives of them.
  pub IsWeak-on : ((a : A) → P a → Q (f a)) → IsWeak Q cmp → IsWeak P (λ a b. cmp (f a) (f b))
  IsWeak-on h v = record {
    anti = λ a b p q. v.anti (f a) (f b) (h a p) (h b q);
    same = λ a b c p q r. v.same (f a) (f b) (f c) (h a p) (h b q) (h c r);
    trans = λ a b c p q r. v.trans (f a) (f b) (f c) (h a p) (h b q) (h c r);
  }
