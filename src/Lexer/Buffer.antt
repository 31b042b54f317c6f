-- ===== src/Lexer/Buffer.antt =====
-- The buffered cursor against the stream of tokens that are not comments: what `ensure`, `peek` and
-- `next_token` return and keep, on every branch.
use thrax.Prelude.{
  ℕ, zero, suc, ◌+◌, ◌≤◌, ◌<◌, ◌≡◌, refl, sym, ap, ◌∙◌, subst, true, false, leb, if_cases, inl, inr,
  Option, some, List, [], ◌∷◌, ◌++◌, get_elem?, length, length-append, if◌then◌else◌, arith,
  Bool-cases,
}
use mathlib.Core.List.{append-nil, append_assoc}
use thrax.Tokens.Kind.{Float}
use thrax.Lexer.Cursor.{Bytes, Cursor, Token, LexError, Lexed, ok, err}
use thrax.Lexer.Scan.{lex_one}
use thrax.Lexer.Stream.{
  Lexer, Result, done, failed, panicked, out_of_fuel, is_comment, is_eof, ensured, ensure,
  then_token, consume, peek, next_token,
}
use thrax.Lexer.One.{LexesOne, lex_one-LexesOne}
use thrax.Lexer.Left.{never_more, past_less}

get_elem?_below :
    {A : Type 0} (xs : List A) (i : ℕ) → i < length xs → (a : A) × (get_elem? xs i ≡ some a)
get_elem?_below [] i l = absurd (omega arith)
get_elem?_below (x ∷ xs) zero l = (x, refl)
get_elem?_below (x ∷ xs) (suc i) l = get_elem?_below xs i (omega arith)

module _ (parse_float : Bytes → Option Float) where
  -- Lexing from one cursor to another reads these tokens, and comments between them.
  pub data Reads : Cursor → List Token → Cursor → Type 0 where
    stays : (c : Cursor) → Reads c [] c
    past :
        (t : Token) {c d e : Cursor} {ts : List Token}
        → lex_one parse_float c ≡ (d, ok t)
        → is_comment t ≡ true
        → Reads d ts e
        → Reads c ts e
    reads :
        (t : Token) {c d e : Cursor} {ts : List Token}
        → lex_one parse_float c ≡ (d, ok t)
        → is_comment t ≡ false
        → Reads d ts e
        → Reads c (t ∷ ts) e

  read_on :
      {c d e : Cursor} {ts us : List Token} → Reads c ts d → Reads d us e → Reads c (ts ++ us) e
  read_on (stays c) q = q
  read_on (past t x k p) q = past t x k (read_on p q)
  read_on (reads t x k p) q = reads t x k (read_on p q)

  read_past :
      (t : Token) {c d e : Cursor} {ts : List Token}
      → Reads c ts d
      → lex_one parse_float d ≡ (e, ok t)
      → is_comment t ≡ true
      → Reads c ts e
  read_past t {c} {e = e} {ts} p x k =
      subst (λ us. Reads c us e) (append-nil ts) (read_on p (past t x k (stays e)))

  module _ (start : Cursor) where
    -- The buffer has what was read from `start`, and lexing goes on behind it.
    abbrev pub Buffered : Lexer → Type 0
    Buffered lx = Reads start lx.buffer lx.scanner

    -- Reading ahead keeps the position and what is in the buffer.
    pub record Ahead (lx lx' : Lexer) : Type 0 where
      pub kept : lx'.pos ≡ lx.pos
      pub more : List Token
      pub grown : lx'.buffer ≡ lx.buffer ++ more

    -- What stops a read ahead: the error of `lex_one` behind what the buffer has.
    pub record Stuck (lx : Lexer) (e : LexError) : Type 0 where
      pub before : Cursor
      pub read : Reads start lx.buffer before
      pub wrong : lex_one parse_float before ≡ (lx.scanner, err e)

    -- `ensure` reads until the buffer has the token that is `n` past the position, or fails before it
    -- with the error that stops it.
    abbrev pub IsEnsured : ℕ → Lexer → Lexer × Result (Unit {0}) → Type 0
    IsEnsured n lx (lx', done u) = Ahead lx lx' × Buffered lx' × (lx.pos + n < length lx'.buffer)
    IsEnsured n lx (lx', failed e) = Ahead lx lx' × Stuck lx' e × (length lx'.buffer ≤ lx.pos + n)
    IsEnsured n lx (lx', panicked) = ⊥
    IsEnsured n lx (lx', out_of_fuel) = ⊥

    -- `peek n` returns the token that is `n` past the position in what is read from the start.
    abbrev pub IsPeeked : ℕ → Lexer → Lexer × Result Token → Type 0
    IsPeeked n lx (lx', done t) =
        Ahead lx lx' × Buffered lx' × (get_elem? lx'.buffer (lx.pos + n) ≡ some t)
    IsPeeked n lx (lx', failed e) = Ahead lx lx' × Stuck lx' e × (length lx'.buffer ≤ lx.pos + n)
    IsPeeked n lx (lx', panicked) = ⊥
    IsPeeked n lx (lx', out_of_fuel) = ⊥

    -- `next_token` returns the token at the position, and moves past it unless it is the end's.
    abbrev pub IsNext : Lexer → Lexer × Result Token → Type 0
    IsNext lx (lx', done t) =
        (lx'.pos ≡ (if is_eof t then lx.pos else lx.pos + 1))
        × ((more : List Token) × (lx'.buffer ≡ lx.buffer ++ more))
        × Buffered lx'
        × (get_elem? lx'.buffer lx.pos ≡ some t)
    IsNext lx (lx', failed e) = Ahead lx lx' × Stuck lx' e × (length lx'.buffer ≤ lx.pos)
    IsNext lx (lx', panicked) = ⊥
    IsNext lx (lx', out_of_fuel) = ⊥

    -- ## Reading ahead

    chained : {x y z : Lexer} → Ahead x y → Ahead y z → Ahead x z
    chained {x} p q = record {
      kept = q.kept ∙ p.kept;
      more = p.more ++ q.more;
      grown = q.grown ∙ ap (λ b. b ++ q.more) p.grown ∙ append_assoc x.buffer p.more q.more;
    }

    IsEnsured-Ahead :
        (n : ℕ) {lx lx' : Lexer} (r : Lexer × Result (Unit {0}))
        → Ahead lx lx'
        → IsEnsured n lx' r
        → IsEnsured n lx r
    IsEnsured-Ahead n (x, done u) a (p, b, l) = (chained a p, b, omega (arith, a.kept, l))
    IsEnsured-Ahead n (x, failed e) a (p, s, l) = (chained a p, s, omega (arith, a.kept, l))
    IsEnsured-Ahead n (x, panicked) a h = h
    IsEnsured-Ahead n (x, out_of_fuel) a h = h

    ensured-IsEnsured :
        (n : ℕ) (lx : Lexer) (next : Lexer → Lexer × Result (Unit {0})) (r : Lexed)
        → Buffered lx
        → length lx.buffer ≤ lx.pos + n
        → lex_one parse_float lx.scanner ≡ r
        → LexesOne lx.scanner r
        → ((x : Lexer)
            → Buffered x
            → x.pos ≡ lx.pos
            → length x.scanner.rest + length lx.buffer < length lx.scanner.rest + length x.buffer
            → IsEnsured n x (next x))
        → IsEnsured n lx (ensured lx r next)
    ensured-IsEnsured n lx next (d, err e) b l q o f = (
      record { kept = refl; more = []; grown = sym (append-nil lx.buffer) },
      record { before = lx.scanner; read = b; wrong = q },
      l,
    )
    ensured-IsEnsured n lx next (d, ok t) b l q o f = elim (Bool-cases (is_comment t)) [
      | inl k ↦ rw k (
          IsEnsured-Ahead n (next (record lx { scanner = d }))
            (record { kept = refl; more = []; grown = sym (append-nil lx.buffer) })
            (f (record lx { scanner = d }) (read_past t b q k) refl
              (omega (arith, past_less lx.scanner d t o k))))
      | inr k ↦ rw k (
          IsEnsured-Ahead n (next (record lx { scanner = d; buffer = lx.buffer ++ t ∷ [] }))
            (record { kept = refl; more = t ∷ []; grown = refl })
            (f (record lx { scanner = d; buffer = lx.buffer ++ t ∷ [] })
              (read_on b (reads t q k (stays d))) refl
              (omega (arith, never_more lx.scanner d t o, length-append lx.buffer (t ∷ [])))))
    ]

    -- `ensure`, with as much fuel as bytes are left and tokens are asked for, is as `IsEnsured` says.
    pub ensure-IsEnsured :
        (g n : ℕ) (lx : Lexer)
        → Buffered lx
        → 0 < g
        → length lx.scanner.rest + lx.pos + n + 1 < g + length lx.buffer
        → IsEnsured n lx (ensure parse_float g n lx)
    unfolding ensure
    ensure-IsEnsured zero n lx b p l = absurd (omega arith)
    ensure-IsEnsured (suc g) n lx b p l =
        if_cases (IsEnsured n lx) (leb (length lx.buffer) (lx.pos + n)) _ _
          (λ h.
            ensured-IsEnsured n lx (ensure parse_float g n) (lex_one parse_float lx.scanner) b
              (ground (arith, h)) refl (lex_one-LexesOne parse_float lx.scanner)
              (λ x c q m.
                ensure-IsEnsured g n x c (ground (arith, h, l)) (ground (arith, h, l, q, m))))
          (λ h. (
            record { kept = refl; more = []; grown = sym (append-nil lx.buffer) },
            b,
            ground (arith, h),
          ))

    then_token-IsPeeked :
        (n : ℕ) (lx : Lexer) (r : Lexer × Result (Unit {0}))
        → IsEnsured n lx r
        → IsPeeked n lx (then_token n r)
    then_token-IsPeeked n lx (x, done u) (a, b, l) =
        let (t, e) = get_elem?_below x.buffer (lx.pos + n) l in
        let e' = subst (λ p. get_elem? x.buffer (p + n) ≡ some t) (sym a.kept) e in rw e' (a, b, e)
    then_token-IsPeeked n lx (x, failed e) h = h
    then_token-IsPeeked n lx (x, panicked) h = h
    then_token-IsPeeked n lx (x, out_of_fuel) h = h

    consume-IsNext :
        (lx : Lexer) (r : Lexer × Result Token) → IsPeeked 0 lx r → IsNext lx (consume r)
    consume-IsNext lx (x, done t) (a, b, e) = elim (Bool-cases (is_eof t)) [
      | inl k ↦
          rw k (
            a.kept,
            (a.more, a.grown),
            b,
            subst (λ i. get_elem? x.buffer i ≡ some t) (omega arith) e,
          )
      | inr k ↦ rw k (
        ap (λ p. p + 1) a.kept,
        (a.more, a.grown),
        b,
        subst (λ i. get_elem? x.buffer i ≡ some t) (omega arith) e,
      )
    ]
    consume-IsNext lx (x, failed e) (a, s, l) = (a, s, omega (arith, l))
    consume-IsNext lx (x, panicked) h = h
    consume-IsNext lx (x, out_of_fuel) h = h

    -- `peek n`, on a buffer read from `start`, returns the token that is `n` past the position among those
    -- read from there, or the error that stops lexing before it; it keeps the position and what is
    -- in the buffer, and neither panics nor, with this much fuel, runs out of it.
    pub peek-IsPeeked :
        (g n : ℕ) (lx : Lexer)
        → Buffered lx
        → 0 < g
        → length lx.scanner.rest + lx.pos + n + 1 < g + length lx.buffer
        → IsPeeked n lx (peek parse_float g n lx)
    unfolding peek
    peek-IsPeeked g n lx b p l =
        then_token-IsPeeked n lx (ensure parse_float g n lx) (ensure-IsEnsured g n lx b p l)

    -- `next_token`, on a buffer read from `start`, returns the token at the position and moves past it
    -- unless it is the end's, or returns the error that stops lexing before it and keeps the position;
    -- it neither panics nor, with this much fuel, runs out of it.
    pub next_token-IsNext :
        (g : ℕ) (lx : Lexer)
        → Buffered lx
        → 0 < g
        → length lx.scanner.rest + lx.pos + 1 < g + length lx.buffer
        → IsNext lx (next_token parse_float g lx)
    unfolding next_token
    next_token-IsNext g lx b p l = consume-IsNext lx (then_token 0 (ensure parse_float g 0 lx)) (
        then_token-IsPeeked 0 lx (ensure parse_float g 0 lx)
          (ensure-IsEnsured g 0 lx b p (omega (arith, l))))
