-- ===== src/Lexer/Agree.antt =====
-- Lists of tokens of which one begins as the other does, and results that are lists.
use thrax.Prelude.{ℕ, zero, suc, ◌≡◌, refl, sym, ◌∙◌, some, List, [], ◌∷◌, get_elem?}
use mathlib.Core.Option.{some_inj}
use thrax.Lexer.Cursor.{Token}
use thrax.Lexer.Stream.{Result, done, failed, panicked, out_of_fuel, pushed}

-- The one list begins as the other does.
abbrev pub Agree : List Token → List Token → Type 0
Agree [] us = Unit
Agree (t ∷ ts) [] = Unit
Agree (t ∷ ts) (u ∷ us) = (t ≡ u) × Agree ts us

pub agreed_nothing : (ts : List Token) → Agree ts []
agreed_nothing [] = tt
agreed_nothing (t ∷ ts) = tt

pub Agree-get_elem? :
    (ts us : List Token) (i : ℕ) (t u : Token)
    → Agree ts us
    → get_elem? ts i ≡ some t
    → get_elem? us i ≡ some u
    → t ≡ u
Agree-get_elem? [] us i t u a e f = cc
Agree-get_elem? (x ∷ ts) [] i t u a e f = cc
Agree-get_elem? (x ∷ ts) (y ∷ us) zero t u a e f = sym (some_inj.0 e) ∙ a.0 ∙ some_inj.0 f
Agree-get_elem? (x ∷ ts) (y ∷ us) (suc i) t u a e f = Agree-get_elem? ts us i t u a.1 e f

pub done_inj : {ts us : List Token} → done ts ≡ done us → us ≡ ts
done_inj q = cc

pub pushed_done :
    (t : Token) (r : Result (List Token)) (all : List Token)
    → pushed t r ≡ done all
    → (us : List Token) × (r ≡ done us) × (all ≡ t ∷ us)
pushed_done t (done us) all e = (us, refl, cc)
pushed_done t (failed x) all e = cc
pushed_done t panicked all e = cc
pushed_done t out_of_fuel all e = cc
