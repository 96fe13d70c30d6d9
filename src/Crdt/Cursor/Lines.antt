-- ===== src/Crdt/Cursor/Lines.antt =====
-- About the line and the column that client/src/crdt/CursorAnchor.ts counts.
use mathlib.Core.List.{append_assoc, append-nil}
use syncode.Base.{
  ℕ, zero, suc, ◌+◌, ◌≡◌, refl, sym, ap, subst, ◌∙◌, ◌⊎◌, inl, inr, false, Bool-cases, [], ◌∷◌,
  ◌++◌, arith, JsString, any, length, length-append, snoc, take, if◌then◌else◌,
}
use syncode.Crdt.Cursor.{is_newline, advance, position_from}

abbrev pub newlines : JsString → ℕ
newlines [] = 0
newlines (c ∷ text) = (if is_newline c then 1 else 0) + newlines text

-- The line and the column behind a text: its line breaks, and the units behind the last of them.
pub record IsPlace (text : JsString) (current : ℕ × ℕ) : Type 0 where
  pub before : JsString
  pub after : JsString
  pub whole : text ≡ before ++ after
  pub starts : (before ≡ []) ⊎ ((lines : JsString) × (before ≡ lines ++ 10 ∷ []))
  pub same_line : any is_newline after ≡ false
  pub line : current.0 ≡ suc (newlines before)
  pub column : current.1 ≡ suc (length after)

newlines-append : (xs ys : JsString) → newlines (xs ++ ys) ≡ newlines xs + newlines ys
newlines-append [] ys = omega arith
newlines-append (x ∷ xs) ys = omega (arith, newlines-append xs ys)

newlines-none : (xs : JsString) → any is_newline xs ≡ false → newlines xs ≡ 0
newlines-none [] h = refl
newlines-none (x ∷ xs) h = ground (arith, newlines-none xs)

any-snoc :
    (c : ℕ) (xs : JsString)
    → any is_newline xs ≡ false
    → is_newline c ≡ false
    → any is_newline (xs ++ c ∷ []) ≡ false
any-snoc c [] h n = ground arith
any-snoc c (x ∷ xs) h n = ground (arith, any-snoc c xs)

-- One unit more.
advance-IsPlace :
    (text : JsString) (c : ℕ) (current : ℕ × ℕ)
    → IsPlace text current
    → IsPlace (text ++ c ∷ []) (advance c current)
advance-IsPlace text c current p = elim (Bool-cases (is_newline c)) [
  | inl break ↦ rw break (record {
    before = text ++ c ∷ [];
    after = [];
    whole = sym (append-nil (text ++ c ∷ []));
    starts = inr (text, ground arith);
    same_line = refl;
    line = omega (
      arith,
      p.line,
      ap newlines p.whole,
      newlines-append p.before p.after,
      newlines-none p.after p.same_line,
      newlines-append text (c ∷ []),
      ap {B = ℕ} (λ b. if b then 1 else 0) break,
    );
    column = refl;
  })
  | inr same ↦ rw same (record {
    before = p.before;
    after = p.after ++ c ∷ [];
    whole = ap (λ z. z ++ c ∷ []) p.whole ∙ append_assoc p.before p.after (c ∷ []);
    starts = p.starts;
    same_line = any-snoc c p.after p.same_line same;
    line = p.line;
    column = omega (arith, p.column, length-append p.after (c ∷ []));
  })
]

from-IsPlace :
    (seen text : JsString) (n : ℕ) (current : ℕ × ℕ)
    → IsPlace seen current
    → IsPlace (seen ++ take n text) (position_from text n current)
unfolding position_from
from-IsPlace seen text zero current p = subst (λ z. IsPlace z current) (sym (append-nil seen)) p
from-IsPlace seen [] (suc n) current p = subst (λ z. IsPlace z current) (sym (append-nil seen)) p
from-IsPlace seen (c ∷ text) (suc n) current p =
    subst (λ z. IsPlace z (position_from text n (advance c current))) (snoc seen (take n text) c)
      (from-IsPlace (seen ++ c ∷ []) text n (advance c current) (advance-IsPlace seen c current p))

pub position_from-IsPlace :
    (text : JsString) (n : ℕ) → IsPlace (take n text) (position_from text n (1, 1))
position_from-IsPlace text n =
    from-IsPlace [] text n (1, 1)
      (record {
        before = [];
        after = [];
        whole = refl;
        starts = inl refl;
        same_line = refl;
        line = refl;
        column = refl;
      })
