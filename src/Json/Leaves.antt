-- ===== src/Json/Leaves.antt =====
-- Each scan of the parser leaves no more of the text than it has, and a string's scan less.
use Prim.Native.Char.{Char, code}
use mathlib.Core.Option.{some_inj}
use mathlib.Core.Option
use thrax.Prelude.{
  ℕ, zero, suc, ◌≤◌, ◌<◌, ◌≡◌, refl, ap, ◌&&◌, ◌||◌, ◌==◌, ltb, leb, if_cases, Option, Option-cases,
  none, some, [], ◌∷◌, length, arith, Bool-cases, inl, inr,
}
use thrax.Json.Value.{Text, chars}
use thrax.Json.Scan.{
  ReadError, out_of_fuel, Parsed, ok, err, ws, strip, stripped, expect, read_hex4,
}
use thrax.Json.Reader.{push, low_half, unicode, escape, string, and_then}

abbrev pub HasEnough : ReadError → Type 0
HasEnough out_of_fuel = ⊥
HasEnough _ = Unit

-- A step had enough fuel, and leaves less than so much.
abbrev pub Leaves : {A : Type 0} → ℕ → Parsed A → Type 0
Leaves n (ok a t) = length t < n
Leaves n (err e) = HasEnough e

pub less_left : {A : Type 0} (m n : ℕ) (p : Parsed A) → m ≤ n → Leaves m p → Leaves n p
less_left m n (ok a t) l h = omega (arith, l, h)
less_left m n (err e) l h = h

Leaves-push : (n : ℕ) (c : Char) (p : Parsed Text) → Leaves n p → Leaves n (push c p)
Leaves-push n c (ok s t) h = h
Leaves-push n c (err e) h = h

pub Leaves-and_then :
    {A B : Type 0} (m n : ℕ) (p : Parsed A) (next : A → Text → Parsed B)
    → Leaves m p
    → ((a : A) (t : Text) → length t < m → Leaves n (next a t))
    → Leaves n (and_then p next)
Leaves-and_then m n (ok a t) next h f = f a t h
Leaves-and_then m n (err e) next h f = h

-- ## Scans

pub length-ws : (s : Text) → length (ws s) ≤ length s
unfolding ws
length-ws [] = omega arith
length-ws (c ∷ s) =
    if_cases (λ r. length r ≤ suc (length s))
      (code c == 32 || code c == 9 || code c == 10 || code c == 13) (ws s) (c ∷ s)
      (λ e. omega (arith, length-ws s)) (λ e. omega arith)

no_text : {t : Text} → ◌≡◌ {A = Option Text} none (some t) → ⊥
no_text q = cc

length-strip : (lit s t : Text) → strip lit s ≡ some t → length t ≤ length s
unfolding strip
length-strip [] s t e = omega (arith, ap length (some_inj.0 e))
length-strip (d ∷ lit) [] t e = absurd (no_text e)
length-strip (d ∷ lit) (c ∷ s) t e = elim (Bool-cases (code d == code c)) [
  | inl k ↦ omega (arith, length-strip lit s t (rw k at e))
  | inr k ↦ absurd (no_text (rw k at e))
]

Leaves-stripped :
    {A : Type 0} (n m : ℕ) (lit : Text) (o : Option Text) (next : Text → Parsed A)
    → ((t : Text) → o ≡ some t → length t ≤ m)
    → ((t : Text) → length t ≤ m → Leaves n (next t))
    → Leaves n (stripped lit o next)
Leaves-stripped n m lit none next l f = tt
Leaves-stripped n m lit (some t) next l f = f t (l t refl)

pub Leaves-expect :
    {A : Type 0} (n : ℕ) (lit s : Text) (next : Text → Parsed A)
    → ((t : Text) → length t ≤ length s → Leaves n (next t))
    → Leaves n (expect lit s next)
unfolding expect
Leaves-expect n lit s next f =
    Leaves-stripped n (length s) lit (strip lit s) next (length-strip lit s) f

-- A literal that is not empty takes at least one character.
pub Leaves-expect_some :
    {A : Type 0} (n : ℕ) (d : Char) (lit s : Text) (next : Text → Parsed A)
    → ((t : Text) → length t < length s → Leaves n (next t))
    → Leaves n (expect (d ∷ lit) s next)
unfolding expect strip
Leaves-expect_some n d lit [] next f = tt
Leaves-expect_some n d lit (c ∷ s) next f = elim (Bool-cases (code d == code c)) [
  | inl e ↦ rw e (
      Leaves-stripped n (length s) (d ∷ lit) (strip lit s) next (length-strip lit s)
        (λ t l. f t (omega (arith, l))))
  | inr e ↦ rw e tt
]

-- ## Strings

no_digits : {n : ℕ} {t : Text} → ◌≡◌ {A = Option (ℕ × Text)} none (some (n, t)) → ⊥
no_digits q = cc

length-mapped :
    (o : Option ℕ) (s : Text) (n : ℕ) (t : Text)
    → Option.map {B = ℕ × Text} (λ n. (n, s)) o ≡ some (n, t)
    → length t ≤ length s
length-mapped none s n t e = absurd (no_digits e)
length-mapped (some m) s n t e = omega (arith, ap (λ (r : ℕ × Text). length r.1) (some_inj.0 e))

length-read_hex4 : (s : Text) (n : ℕ) (t : Text) → read_hex4 s ≡ some (n, t) → length t ≤ length s
unfolding read_hex4
length-read_hex4 [] n t e = absurd (no_digits e)
length-read_hex4 (a ∷ []) n t e = absurd (no_digits e)
length-read_hex4 (a ∷ b ∷ []) n t e = absurd (no_digits e)
length-read_hex4 (a ∷ b ∷ c ∷ []) n t e = absurd (no_digits e)
length-read_hex4 (a ∷ b ∷ c ∷ d ∷ s) n t e = omega (arith, length-mapped _ s n t e)

-- What goes on with at most this text is as it should be.
abbrev From : {A : Type 0} → ℕ → ℕ → (Text → Parsed A) → Type 0
From n m next = (t : Text) → length t ≤ m → Leaves n (next t)

Leaves-low_half :
    (n : ℕ) (next : Text → Parsed Text) (hi : ℕ) (s : Text)
    → From n (length s) next
    → Leaves n (low_half next hi (read_hex4 s))
Leaves-low_half n next hi s f = elim (Option-cases (read_hex4 s)) [
  | inl e ↦ rw e tt
  | inr ((lo, t), e) ↦ rw e (Leaves-push n _ (next t) (f t (length-read_hex4 s lo t e)))
]

Leaves-unicode :
    (n : ℕ) (next : Text → Parsed Text) (s : Text)
    → From n (length s) next
    → Leaves n (unicode next (read_hex4 s))
Leaves-unicode n next s f = elim (Option-cases (read_hex4 s)) [
  | inl e ↦ rw e tt
  | inr ((hi, t), e) ↦
      let l = length-read_hex4 s hi t e in
      rw e (
        if_cases (Leaves n) (leb 55296 hi && ltb hi 56320) _ _
          (λ k.
            Leaves-expect n (chars "\\u") t (λ u. low_half next hi (read_hex4 u))
              (λ u m. Leaves-low_half n next hi u (λ v q. f v (omega (arith, l, m, q)))))
          (λ k. Leaves-push n _ (next t) (f t l)))
]

Leaves-escape :
    (n : ℕ) (next : Text → Parsed Text) (s : Text)
    → From n (length s) next
    → Leaves n (escape next s)
unfolding escape
Leaves-escape n next [] f = tt
Leaves-escape n next (c ∷ s) f =
    if_cases (Leaves n) (code c == 34) _ _ (λ e. go _)
      (λ e.
        if_cases (Leaves n) (code c == 92) _ _ (λ e. go _)
          (λ e.
            if_cases (Leaves n) (code c == 47) _ _ (λ e. go _)
              (λ e.
                if_cases (Leaves n) (code c == 98) _ _ (λ e. go _)
                  (λ e.
                    if_cases (Leaves n) (code c == 102) _ _ (λ e. go _)
                      (λ e.
                        if_cases (Leaves n) (code c == 110) _ _ (λ e. go _)
                          (λ e.
                            if_cases (Leaves n) (code c == 114) _ _ (λ e. go _)
                              (λ e.
                                if_cases (Leaves n) (code c == 116) _ _ (λ e. go _)
                                  (λ e.
                                    if_cases (Leaves n) (code c == 117) _ _
                                      (λ e. Leaves-unicode n next s (λ t l. f t (omega (arith, l))))
                                      (λ e. tt)))))))))
  where
    go : (d : Char) → Leaves n (push d (next s))
    go d = Leaves-push n d (next s) (f s (omega arith))

pub Leaves-string : (f : ℕ) (s : Text) → length s < f → Leaves (length s) (string f s)
unfolding string
Leaves-string zero s l = absurd (omega arith)
Leaves-string (suc f) [] l = tt
Leaves-string (suc f) (c ∷ s) l =
    if_cases (Leaves (suc (length s))) (code c == 34) _ _ (λ e. omega arith)
      (λ e.
        if_cases (Leaves (suc (length s))) (code c == 92) _ _
          (λ k. Leaves-escape (suc (length s)) (string f) s (λ t m.
            less_left (length t) (suc (length s)) (string f t) (omega (arith, m))
              (Leaves-string f t (omega (arith, l, m)))))
          (λ k. Leaves-push (suc (length s)) c (string f s) (
            less_left (length s) (suc (length s)) (string f s) (omega arith)
              (Leaves-string f s (omega (arith, l))))))
