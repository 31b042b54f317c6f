-- ===== src/Lexer/Refines.antt =====
-- A lexer with a buffer behaves as the list of tokens that `tokenize` returns, with a position in it.
use thrax.Prelude.{
  ℕ, zero, suc, ◌+◌, ◌<◌, ◌≡◌, refl, sym, ap, ◌∙◌, subst, Bool, true, false, inl, inr, Option, some,
  List, [], ◌∷◌, get_elem?, length, if◌then◌else◌, arith, Bool-cases,
}
use thrax.Tokens.Kind.{Float}
use thrax.Lexer.Cursor.{Bytes, Cursor, Token, LexError, Lexed, ok, err}
use thrax.Lexer.Scan.{cursor, lex_one}
use thrax.Lexer.Stream.{
  Lexer, Result, done, failed, panicked, out_of_fuel, is_comment, is_eof, pushed, comments_from,
  peek, next_token, tokenize, tokenize_with_comments,
}
use thrax.Lexer.One.{LexesOne, lex_one-LexesOne}
use thrax.Lexer.Tiles.{left}
use thrax.Lexer.Left.{never_more, lexed-Leaves, comment_goes_on}
use thrax.Lexer.Agree.{Agree, agreed_nothing, Agree-get_elem?, done_inj, pushed_done}
use thrax.Lexer.Plain.{
  without_comments, without-comment, without-token, tokenize-tokenize_with_comments,
}
use thrax.Lexer.Buffer.{
  Reads, stays, past, reads, Buffered, IsPeeked, IsNext, peek-IsPeeked, next_token-IsNext,
}

module _ (parse_float : Bytes → Option Float) where
  -- What the loop over all tokens returns, where `lex_one` is known
  module _ (h : ℕ) (c d : Cursor) (t : Token) (x : lex_one parse_float c ≡ (d, ok t)) where
    after_comment :
        is_comment t ≡ true
        → without_comments (comments_from parse_float (suc h) c)
          ≡ without_comments (comments_from parse_float h d)
    unfolding comments_from
    after_comment k =
        rw x (rw (comment_goes_on t k) (without-comment t (comments_from parse_float h d) k))

    after_token :
        is_comment t ≡ false
        → without_comments (comments_from parse_float (suc h) c) ≡ (
            if is_eof t
            then done (t ∷ [])
            else pushed t (without_comments (comments_from parse_float h d)))
    unfolding comments_from
    after_token k = rw x (elim (Bool-cases (is_eof t)) [
      | inl q ↦ rw q (rw k refl)
      | inr q ↦ rw q (without-token t (comments_from parse_float h d) k)
    ])

  comments_wrong :
      (h : ℕ) (c d : Cursor) (e : LexError) (all : List Token)
      → lex_one parse_float c ≡ (d, err e)
      → without_comments (comments_from parse_float h c) ≡ done all
      → ⊥
  unfolding comments_from
  comments_wrong zero c d e all x q = cc
  comments_wrong (suc h) c d e all x q = no (rw x at q)
    where
      no : failed e ≡ done all → ⊥
      no q = cc

  no_fuel :
      (c : Cursor) (all : List Token)
      → without_comments (comments_from parse_float 0 c) ≡ done all
      → ⊥
  unfolding comments_from
  no_fuel c all q = cc

  Reads-Agree :
      {c d : Cursor} {ts : List Token} (h : ℕ) (all : List Token)
      → Reads parse_float c ts d
      → without_comments (comments_from parse_float h c) ≡ done all
      → Agree ts all
  Reads-Agree h all (stays c) q = tt
  Reads-Agree zero all (past t {c} x k p) q = absurd (no_fuel c all q)
  Reads-Agree (suc h) all (past t {c} {d} x k p) q =
      Reads-Agree h all p (sym (after_comment h c d t x k) ∙ q)
  Reads-Agree zero all (reads t {c} x k p) q = absurd (no_fuel c all q)
  Reads-Agree (suc h) all (reads t {c} {d} {ts = ts} x k p) q = elim (Bool-cases (is_eof t)) [
    | inl e ↦ rw (done_inj (rw e at (sym (after_token h c d t x k) ∙ q))) (refl, agreed_nothing ts)
    | inr e ↦
        let (us, r, s) =
          pushed_done t (without_comments (comments_from parse_float h d)) all
            (rw e at (sym (after_token h c d t x k) ∙ q)) in
        rw s (refl, Reads-Agree h us p r)
  ]

  -- ## A read that is stuck

  quiet : (c d : Cursor) (e : LexError) → length c.rest ≡ 0 → LexesOne c (d, err e) → ⊥
  quiet c d e z l = elim l.lexed [
    | inl (_, q) ↦ no q
    | inr (p, i) ↦ omega (arith, z, p, left l.blanks.takes)
  ]
    where
      no : {t : Token} {s : Cursor} → ◌≡◌ {A = Lexed} (d, err e) (s, ok t) → ⊥
      no q = cc

  one_lexed : {c : Cursor} {r : Lexed} → lex_one parse_float c ≡ r → LexesOne c r
  one_lexed {c} x = subst (LexesOne c) x (lex_one-LexesOne parse_float c)

  Reads-end :
      {c d : Cursor} {ts : List Token}
      → Reads parse_float c ts d
      → length c.rest ≡ 0
      → length d.rest ≡ 0
  Reads-end (stays c) z = z
  Reads-end (past t {c} {d} x k p) z =
      Reads-end p (omega (arith, z, never_more c d t (one_lexed x)))
  Reads-end (reads t {c} {d} x k p) z =
      Reads-end p (omega (arith, z, never_more c d t (one_lexed x)))

  ended : (c d : Cursor) (t : Token) → is_eof t ≡ true → LexesOne c (d, ok t) → length d.rest ≡ 0
  ended c d t e l = elim (lexed-Leaves c d t l) [ inl (_, z) ↦ z | inr (f, _) ↦ absurd (clash e f) ]
    where
      clash : {b : Bool} → b ≡ true → b ≡ false → ⊥
      clash y q = cc

  not_stuck :
      {c d f : Cursor} {ts : List Token} {e : LexError} (h : ℕ) (all : List Token)
      → Reads parse_float c ts d
      → lex_one parse_float d ≡ (f, err e)
      → without_comments (comments_from parse_float h c) ≡ done all
      → ⊥
  not_stuck {f = f} {e = e} h all (stays c) y q = comments_wrong h c f e all y q
  not_stuck zero all (past t {c} x k p) y q = no_fuel c all q
  not_stuck (suc h) all (past t {c} {d} x k p) y q =
      not_stuck h all p y (sym (after_comment h c d t x k) ∙ q)
  not_stuck zero all (reads t {c} x k p) y q = no_fuel c all q
  not_stuck {d = z} {f} {e = w} (suc h) all (reads t {c} {d} x k p) y q =
      elim (Bool-cases (is_eof t)) [
        | inl e ↦ quiet z f w (Reads-end p (ended c d t e (one_lexed x))) (one_lexed y)
        | inr e ↦
            let (us, r, s) =
              pushed_done t (without_comments (comments_from parse_float h d)) all
                (rw e at (sym (after_token h c d t x k) ∙ q)) in
            not_stuck h us p y r
      ]

  -- ## The contract

  module _ (src : Bytes) (all : List Token) (whole : tokenize parse_float src ≡ done all) where
    plain_all :
        without_comments (comments_from parse_float (suc (length src)) (cursor 0 0 1 src))
        ≡ done all
    unfolding tokenize_with_comments
    plain_all = sym (tokenize-tokenize_with_comments parse_float src) ∙ whole

    agrees :
        (lx : Lexer) (t u : Token) (i : ℕ)
        → Buffered parse_float (cursor 0 0 1 src) lx
        → get_elem? lx.buffer i ≡ some t
        → get_elem? all i ≡ some u
        → t ≡ u
    agrees lx t u i b e f =
        Agree-get_elem? lx.buffer all i t u (Reads-Agree (suc (length src)) all b plain_all) e f

    peeked :
        (n : ℕ) (lx : Lexer) (u : Token) (r : Lexer × Result Token)
        → get_elem? all (lx.pos + n) ≡ some u
        → IsPeeked parse_float (cursor 0 0 1 src) n lx r
        → r.1 ≡ done u
    peeked n lx u (x, done t) e (a, b, f) = ap done (agrees x t u (lx.pos + n) b f e)
    peeked n lx u (x, failed w) e (a, s, l) =
        absurd (not_stuck (suc (length src)) all s.read s.wrong plain_all)
    peeked n lx u (x, panicked) e h = absurd h
    peeked n lx u (x, out_of_fuel) e h = absurd h

    nexted :
        (lx : Lexer) (u : Token) (r : Lexer × Result Token)
        → get_elem? all lx.pos ≡ some u
        → IsNext parse_float (cursor 0 0 1 src) lx r
        → (r.1 ≡ done u)
          × Buffered parse_float (cursor 0 0 1 src) r.0
          × (r.0.pos ≡ (if is_eof u then lx.pos else lx.pos + 1))
    nexted lx u (x, done t) e (a, g, b, f) =
        let same = agrees x t u lx.pos b f e in (ap done same, b, rw (← same) a)
    nexted lx u (x, failed w) e (a, s, l) =
        absurd (not_stuck (suc (length src)) all s.read s.wrong plain_all)
    nexted lx u (x, panicked) e h = absurd h
    nexted lx u (x, out_of_fuel) e h = absurd h

    -- where `tokenize` returns `all`, `peek n` of a lexer whose buffer was read from the beginning of the
    -- source returns the element of `all` that is `n` past the position.
    pub peek-tokenize :
        (g n : ℕ) (lx : Lexer) (u : Token)
        → Buffered parse_float (cursor 0 0 1 src) lx
        → 0 < g
        → length lx.scanner.rest + lx.pos + n + 1 < g + length lx.buffer
        → get_elem? all (lx.pos + n) ≡ some u
        → (peek parse_float g n lx).1 ≡ done u
    peek-tokenize g n lx u b p l e =
        peeked n lx u (peek parse_float g n lx) e
          (peek-IsPeeked parse_float (cursor 0 0 1 src) g n lx b p l)

    -- where `tokenize` returns `all`, `next_token` of a lexer whose buffer was read from the beginning of
    -- the source returns the element of `all` at the position, keeps such a buffer, and moves on by one
    -- unless the element is the end's token.
    pub next_token-tokenize :
        (g : ℕ) (lx : Lexer) (u : Token)
        → Buffered parse_float (cursor 0 0 1 src) lx
        → 0 < g
        → length lx.scanner.rest + lx.pos + 1 < g + length lx.buffer
        → get_elem? all lx.pos ≡ some u
        → ((next_token parse_float g lx).1 ≡ done u)
          × Buffered parse_float (cursor 0 0 1 src) (next_token parse_float g lx).0
          × ((next_token parse_float g lx).0.pos ≡ (if is_eof u then lx.pos else lx.pos + 1))
    next_token-tokenize g lx u b p l e =
        nexted lx u (next_token parse_float g lx) e
          (next_token-IsNext parse_float (cursor 0 0 1 src) g lx b p l)
