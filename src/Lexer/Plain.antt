-- ===== src/Lexer/Plain.antt =====
-- `tokenize`, which reads through the buffer, gives the tokens of `tokenize_with_comments` that are not
-- comments.
use thrax.Prelude.{
  ℕ, zero, suc, ◌+◌, ◌<◌, ◌≡◌, refl, sym, ap, ◌∙◌, subst, Bool, true, false, leb, inl, inr, Option,
  some, List, [], ◌∷◌, ◌++◌, get_elem?, length, length-append, if◌then◌else◌, arith, Bool-cases,
}
use thrax.Tokens.Kind.{Float}
use thrax.Lexer.Cursor.{Bytes, Cursor, Token, Lexed, ok, err}
use thrax.Lexer.Scan.{lex_one}
use thrax.Lexer.Stream.{
  Lexer, Result, done, failed, panicked, out_of_fuel, new, is_comment, is_eof, ensured, ensure,
  then_token, consume, next_token, pushed, all_tokens, next_tokens, comments_from,
  tokenize_with_comments, tokens_from, tokenize,
}
use thrax.Lexer.One.{LexesOne, lex_one-LexesOne}
use thrax.Lexer.Left.{lexed-Leaves, comment_goes_on}

-- ## Without comments

abbrev pub drop_comments : List Token → List Token
drop_comments [] = []
drop_comments (t ∷ ts) = let rest = drop_comments ts in if is_comment t then rest else t ∷ rest

abbrev pub without_comments : Result (List Token) → Result (List Token)
without_comments (done ts) = done (drop_comments ts)
without_comments r = r

pub without-comment :
    (t : Token) (r : Result (List Token))
    → is_comment t ≡ true
    → without_comments (pushed t r) ≡ without_comments r
without-comment t (done ts) h = rw h refl
without-comment t (failed e) h = refl
without-comment t panicked h = refl
without-comment t out_of_fuel h = refl

pub without-token :
    (t : Token) (r : Result (List Token))
    → is_comment t ≡ false
    → without_comments (pushed t r) ≡ pushed t (without_comments r)
without-token t (done ts) h = rw h refl
without-token t (failed e) h = refl
without-token t panicked h = refl
without-token t out_of_fuel h = refl

get_elem?-last : (ts : List Token) (t : Token) → get_elem? (ts ++ t ∷ []) (length ts) ≡ some t
get_elem?-last [] t = refl
get_elem?-last (x ∷ ts) t = get_elem?-last ts t

-- ## Reading through the buffer

module _ (parse_float : Bytes → Option Float) (next : Lexer → Result (List Token)) where
  -- What is read next is what the loop over all tokens reads, less the comments.
  abbrev Follows : Lexer → Type 0
  Follows lx =
      (h : ℕ)
      → length lx.buffer ≡ lx.pos
      → length lx.scanner.rest < h
      → next lx ≡ without_comments (comments_from parse_float h lx.scanner)

  -- What `next_token` gives to the loop of `tokenize`
  abbrev read : ℕ → Lexer → Result (List Token)
  read g lx = next_tokens (consume (then_token 0 (ensure parse_float g 0 lx))) next

  read_buffered :
      (g : ℕ) (lx : Lexer) (t : Token)
      → length lx.buffer ≡ lx.pos
      → 0 < g
      → read g (record lx { buffer = lx.buffer ++ t ∷ [] }) ≡ (
          if is_eof t
          then done (t ∷ [])
          else pushed t (next (record lx { buffer = lx.buffer ++ t ∷ []; pos = lx.pos + 1 })))
  unfolding ensure
  read_buffered zero lx t e l = absurd (omega arith)
  read_buffered (suc g) lx t e l =
      rw short (rw there (elim (Bool-cases (is_eof t)) [ inl k ↦ rw k refl | inr k ↦ rw k refl ]))
    where
      short : leb (length (lx.buffer ++ t ∷ [])) (lx.pos + 0) ≡ false
      short = ground (arith, length-append lx.buffer (t ∷ []))

      there : get_elem? (lx.buffer ++ t ∷ []) (lx.pos + 0) ≡ some t
      there =
          subst (λ i. get_elem? (lx.buffer ++ t ∷ []) i ≡ some t) (omega (arith, e))
            (get_elem?-last lx.buffer t)

  read_token :
      (g h : ℕ) (lx : Lexer) (d : Cursor) (t : Token)
      → length lx.buffer ≡ lx.pos
      → 0 < g
      → is_comment t ≡ false
      → ((lx' : Lexer)
          → length lx'.buffer ≡ lx'.pos
          → is_eof t ≡ false
          → lx'.scanner ≡ d
          → next lx' ≡ without_comments (comments_from parse_float h d))
      → read g (record lx { scanner = d; buffer = lx.buffer ++ t ∷ [] })
        ≡ without_comments
            (if is_eof t then done (t ∷ []) else pushed t (comments_from parse_float h d))
  read_token g h lx d t e l k f =
      read_buffered g (record lx { scanner = d }) t e l ∙ elim (Bool-cases (is_eof t)) [
        | inl q ↦ rw q (rw k refl)
        | inr q ↦ rw q (
            ap (pushed t) (
              f (record lx { scanner = d; buffer = lx.buffer ++ t ∷ []; pos = lx.pos + 1 })
                (omega (arith, e, length-append lx.buffer (t ∷ []))) q refl)
            ∙ sym (without-token t (comments_from parse_float h d) k))
      ]

  -- One read, given that reading past a comment and the loop after a token go on as they should
  read_round :
      (g h : ℕ) (lx : Lexer) (r : Lexed)
      → length lx.buffer ≡ lx.pos
      → 0 < g
      → LexesOne lx.scanner r
      → ((d : Cursor)
          → length d.rest < length lx.scanner.rest
          → (read g (record lx { scanner = d }) ≡ without_comments (comments_from parse_float h d))
            × ((lx' : Lexer)
                → length lx'.buffer ≡ lx'.pos
                → lx'.scanner ≡ d
                → next lx' ≡ without_comments (comments_from parse_float h d)))
      → next_tokens (consume (then_token 0 (ensured lx r (ensure parse_float g 0)))) next
        ≡ without_comments (all_tokens r (comments_from parse_float h))
  read_round g h lx (d, err x) e l o f = refl
  read_round g h lx (d, ok t) e l o f = elim (Bool-cases (is_comment t)) [
    | inl k ↦ rw k (
        rw (comment_goes_on t k) (
          (f d (shorter (comment_goes_on t k))).0
          ∙ sym (without-comment t (comments_from parse_float h d) k)))
    | inr k ↦ rw k (read_token g h lx d t e l k (λ lx' a q. (f d (shorter q)).1 lx' a))
  ]
    where
      shorter : is_eof t ≡ false → length d.rest < length lx.scanner.rest
      shorter q = elim (lexed-Leaves lx.scanner d t o) [
        | inl (y, z) ↦ absurd (clash y q)
        | inr (y, z) ↦ z
      ]
        where
          clash : {b : Bool} → b ≡ true → b ≡ false → ⊥
          clash y q = cc

  read_tokens :
      (g h : ℕ) (lx : Lexer)
      → length lx.buffer ≡ lx.pos
      → suc (length lx.scanner.rest) < g
      → length lx.scanner.rest < h
      → ((lx' : Lexer) → length lx'.scanner.rest < length lx.scanner.rest → Follows lx')
      → read g lx ≡ without_comments (comments_from parse_float h lx.scanner)
  unfolding ensure comments_from
  read_tokens zero h lx e l k f = absurd (omega arith)
  read_tokens (suc g) zero lx e l k f = absurd (omega arith)
  read_tokens (suc g) (suc h) lx e l k f =
      let short : leb (length lx.buffer) (lx.pos + 0) ≡ true = ground (arith, e) in
      rw short (
        read_round g h lx (lex_one parse_float lx.scanner) e (omega (arith, k))
          (lex_one-LexesOne parse_float lx.scanner)
          (λ d s. (
            read_tokens g h (record lx { scanner = d }) e (omega (arith, k, s))
                (omega (arith, l, s)) (λ x y. f x (omega (arith, y, s))),
            (λ x a q.
                subst (λ c. next x ≡ without_comments (comments_from parse_float h c)) q
                  (f x (rw q s) h a (rw q (omega (arith, l, s))))),
          )))

module _ (parse_float : Bytes → Option Float) where
  tokens_from-comments_from :
      (g f h : ℕ) (lx : Lexer)
      → length lx.buffer ≡ lx.pos
      → suc (length lx.scanner.rest) < g
      → length lx.scanner.rest < f
      → length lx.scanner.rest < h
      → tokens_from parse_float g f lx ≡ without_comments (comments_from parse_float h lx.scanner)
  unfolding tokens_from next_token
  tokens_from-comments_from g zero h lx e k l m = absurd (omega arith)
  tokens_from-comments_from g (suc f) h lx e k l m =
      read_tokens parse_float (tokens_from parse_float g f) g h lx e k m (λ x s i a b.
        tokens_from-comments_from g f i x a (omega (arith, k, s)) (omega (arith, l, s)) b)

  -- `tokenize` gives what `tokenize_with_comments` gives, less the comments, and the same error where
  -- lexing stops.
  pub tokenize-tokenize_with_comments :
      (src : Bytes)
      → tokenize parse_float src ≡ without_comments (tokenize_with_comments parse_float src)
  unfolding tokenize new tokenize_with_comments
  tokenize-tokenize_with_comments src =
      tokens_from-comments_from (suc (suc (length src))) (suc (length src)) (suc (length src))
        (new src) refl (omega arith) (omega arith) (omega arith)
