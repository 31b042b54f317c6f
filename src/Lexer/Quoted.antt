-- ===== src/Lexer/Quoted.antt =====
-- The scanners of comments and strings go forward.
use thrax.Prelude.{
  ℕ, zero, suc, ◌+◌, ◌≡◌, refl, Bool, true, false, not, ◌&&◌, ◌==◌, ltb, &&-eq-true, if_cases,
  Option, none, some, [], ◌∷◌, drop, if◌then◌else◌, arith,
}
use thrax.Tokens.Kind.{Kind, str, comment}
use thrax.Lexer.Cursor.{Bytes, Cursor, skip, byte_at, cur, scan_while, unclosed_quote}
use thrax.Lexer.Scan.{
  cursor, block, closed_as, block_from, lex_comment, Move, stop, close, one, two, next_is, escaped,
  move, moved, string_loop, string_from, lex_string,
}
use thrax.Lexer.Stream.{ends}
use thrax.Lexer.Consumes.{Consumes, nothing_consumed, consumed_twice, one-Takes, two-Takes}
use thrax.Lexer.Forward.{
  Forward, IsScan, go_further, mk-IsScan, fail-IsScan, skip-Forward, plain1, plain2,
  scan_while-Forward,
}

-- ## Comments

block-Consumes :
    (base at line d : ℕ) (bs : Bytes)
    → Consumes (cursor base at line bs) (block base at line d bs).0
unfolding block
block-Consumes base at line zero bs = nothing_consumed (cursor base at line bs)
block-Consumes base at line (suc d) [] = nothing_consumed (cursor base at line [])
block-Consumes base at line (suc d) (b ∷ []) =
    consumed_twice (b ∷ [], one-Takes base at line b [])
      (block-Consumes base (at + 1) (if b == b'\n' then line + 1 else line) (suc d) [])
block-Consumes base at line (suc d) (b ∷ b' ∷ bs) =
    let P : Cursor × Bool → Type 0 = λ r. Consumes (cursor base at line (b ∷ b' ∷ bs)) r.0 in
    if_cases P (b == b'#' && b' == b'-') _ _
      (λ e.
        consumed_twice (b ∷ b' ∷ [], two-Takes base at line b b' bs (ground arith) (ground arith))
          (block-Consumes base (at + 2) line (suc (suc d)) bs))
      (λ e.
        if_cases P (b == b'-' && b' == b'#') _ _
          (λ e'.
            consumed_twice
              (b ∷ b' ∷ [], two-Takes base at line b b' bs (ground arith) (ground arith))
              (block-Consumes base (at + 2) line d bs))
          (λ e'.
            consumed_twice (b ∷ [], one-Takes base at line b (b' ∷ bs))
              (block-Consumes base (at + 1) (if b == b'\n' then line + 1 else line) (suc d)
                (b' ∷ bs))))

closed_as-IsScan :
    (k : Kind) (c : Cursor) (r : Cursor × Bool)
    → ends k ≡ false
    → Forward c r.0
    → IsScan c (closed_as k c r)
closed_as-IsScan k c (d, true) e f = mk-IsScan k c d e f
closed_as-IsScan k c (d, false) e f = fail-IsScan unclosed_quote c d f.0.1.based

pub lex_comment-IsScan : (c : Cursor) → (cur c == b'#') ≡ true → IsScan c (lex_comment c)
unfolding lex_comment
lex_comment-IsScan c h =
    if_cases (IsScan c) (byte_at c 1 == b'-') _ _
      (λ e. closed_as-IsScan comment c (block_from (skip 2 c)) refl (
        go_further (skip-Forward 2 c (omega arith) (plain2 c.rest (ground arith) (ground arith)))
          (block-Consumes c.base (c.at + 2) c.line 1 (drop 2 c.rest))))
      (λ e. mk-IsScan comment c (scan_while (λ b. not (b == b'\n')) c) refl (
        scan_while-Forward (λ b. not (b == b'\n')) c (λ b k. ground arith) (ground arith)
          (ground arith)))

-- ## Strings

-- What a move passes over is no newline.
abbrev MoveOk : ℕ → Option ℕ → Move → Type 0
MoveOk b next stop = Unit
MoveOk b next close = (b == b'\n') ≡ false
MoveOk b next (one n d) = (b == b'\n') ≡ false
MoveOk b none (two n d) = ⊥
MoveOk b (some b') (two n d) = ((b == b'\n') ≡ false) × ((b' == b'\n') ≡ false)

escaped-MoveOk :
    (n : Bool) (d b : ℕ) (next : Option ℕ) → (b == b'\n') ≡ false → MoveOk b next (escaped n d next)
escaped-MoveOk n d b none h = h
escaped-MoveOk n d b (some b') h =
    if_cases (MoveOk b (some b')) (b' == b'\n') _ _ (λ e. h) (λ e. (h, e))

open_paren-MoveOk :
    (n : Bool) (d b : ℕ) (next : Option ℕ)
    → (b == b'\n') ≡ false
    → next_is b'(' next ≡ true
    → MoveOk b next (two n d)
open_paren-MoveOk n d b none h e = cc
open_paren-MoveOk n d b (some b') h e = (h, ground arith)

move-MoveOk : (n : Bool) (d b : ℕ) (next : Option ℕ) → MoveOk b next (move n d b next)
unfolding move
move-MoveOk true d b next =
    if_cases (MoveOk b next) (b == b'\n') _ _ (λ e. tt)
      (λ e.
        if_cases (MoveOk b next) (b == b'\\') _ _ (λ k. escaped-MoveOk true d b next e)
          (λ k. if_cases (MoveOk b next) (b == b'"') _ _ (λ l. e) (λ l. e)))
move-MoveOk false d b next =
    if_cases (MoveOk b next) (b == b'\n') _ _ (λ e. tt)
      (λ e.
        if_cases (MoveOk b next) (b == b'\\' && d == 0) _ _ (λ k. escaped-MoveOk false d b next e)
          (λ k.
            if_cases (MoveOk b next) (b == b'"' && d == 0) _ _ (λ l. e)
              (λ l.
                if_cases (MoveOk b next) (b == b'"') _ _ (λ m. e)
                  (λ m.
                    if_cases (MoveOk b next) (b == b'?' && d == 0 && next_is b'(' next) _ _
                      (λ o.
                        open_paren-MoveOk false (d + 1) b next e
                          ((&&-eq-true (b == b'?' && d == 0) (next_is b'(' next) o).1))
                      (λ o.
                        if_cases (MoveOk b next) (b == b'(' && ltb 0 d) _ _ (λ p. e)
                          (λ p.
                            if_cases (MoveOk b next) (b == b')' && ltb 0 d) _ _ (λ q. e)
                              (λ q. e)))))))

one_on :
    (base at line b : ℕ) (bs : Bytes)
    → (b == b'\n') ≡ false
    → Consumes (cursor base at line (b ∷ bs)) (cursor base (at + 1) line bs)
one_on base at line b bs e = (b ∷ [], rw e at (one-Takes base at line b bs))

moved-Consumes :
    (base at line b : ℕ) (bs : Bytes) (next : Option ℕ) (m : Move)
    (next1 next2 : Bool → ℕ → Cursor × Bool)
    → MoveOk b next m
    → ((n : Bool) (d : ℕ) → Consumes (cursor base (at + 1) line bs) (next1 n d).0)
    → ((n : Bool) (d : ℕ)
        → MoveOk b next (two n d)
        → Consumes (cursor base at line (b ∷ bs)) (next2 n d).0)
    → Consumes
        (cursor base at line (b ∷ bs))
        (moved (cursor base at line (b ∷ bs)) (cursor base (at + 1) line bs) m next1 next2).0
moved-Consumes base at line b bs next stop next1 next2 k f g =
    nothing_consumed (cursor base at line (b ∷ bs))
moved-Consumes base at line b bs next close next1 next2 k f g = one_on base at line b bs k
moved-Consumes base at line b bs next (one n d) next1 next2 k f g =
    consumed_twice (one_on base at line b bs k) (f n d)
moved-Consumes base at line b bs next (two n d) next1 next2 k f g = g n d k

string_loop-Consumes :
    (base at line : ℕ) (n : Bool) (d : ℕ) (bs : Bytes)
    → Consumes (cursor base at line bs) (string_loop base at line n d bs).0
unfolding string_loop
string_loop-Consumes base at line n d [] = nothing_consumed (cursor base at line [])
string_loop-Consumes base at line n d (b ∷ []) =
    moved-Consumes base at line b [] none (move n d b none)
      (λ n d. string_loop base (at + 1) line n d []) (λ n d. string_loop base (at + 1) line n d [])
      (move-MoveOk n d b none) (λ n' d'. string_loop-Consumes base (at + 1) line n' d' [])
      (λ n' d' k. absurd k)
string_loop-Consumes base at line n d (b ∷ b' ∷ bs) =
    moved-Consumes base at line b (b' ∷ bs) (some b') (move n d b (some b'))
      (λ n d. string_loop base (at + 1) line n d (b' ∷ bs))
      (λ n d. string_loop base (at + 2) line n d bs) (move-MoveOk n d b (some b'))
      (λ n' d'. string_loop-Consumes base (at + 1) line n' d' (b' ∷ bs))
      (λ n' d' k.
        consumed_twice (b ∷ b' ∷ [], two-Takes base at line b b' bs k.0 k.1)
          (string_loop-Consumes base (at + 2) line n' d' bs))

pub lex_string-IsScan : (c : Cursor) → (cur c == b'"') ≡ true → IsScan c (lex_string c)
unfolding lex_string
lex_string-IsScan c h = closed_as-IsScan str c (string_from (skip 1 c)) refl (
    go_further (skip-Forward 1 c (omega arith) (plain1 c.rest (ground arith)))
      (string_loop-Consumes c.base (c.at + 1) c.line false 0 (drop 1 c.rest)))
