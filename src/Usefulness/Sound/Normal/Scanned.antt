-- ===== src/Usefulness/Sound/Normal/Scanned.antt =====
-- What the scan of a column knows of the value that the column is matched against.
use thrax.Prelude.{
  ℕ, ◌≡◌, sym, ◌∙◌, true, inl, inr, ◌⊎◌, Option, none, some, List, [], ◌∷◌, ◌++◌, Bool-cases, All,
  All-append, if◌then◌else◌,
}
use thrax.Prelude.Names.{StrId, eq_str, eq_str→eq, eq_str_refl, contains}
use thrax.Usefulness.Datum.{Val}
use thrax.Usefulness.Pattern.{Siblings, variant, product, DPat, DFields, ctor, end, field}
use thrax.Usefulness.Column.{Scan, add_names, or_insert, scan, scan_all}
use thrax.Usefulness.Value.{get_field, Holds, Inhabits, Typed, TypedFields}
use thrax.Usefulness.Sound.Normal.Fields.{Known, Holds-map}

contains-append :
    (ns ms : List StrId) (n : StrId)
    → (contains ns n ≡ true) ⊎ (contains ms n ≡ true)
    → contains (ns ++ ms) n ≡ true
contains-append [] ms n (inl h) = cc
contains-append [] ms n (inr h) = h
contains-append (k ∷ ns) ms n h = elim (Bool-cases (eq_str k n)) [
  | inl e ↦ rw e
  | inr e ↦ rw e (contains-append ns ms n (elim h [ inl a ↦ inl (rw e at a) | inr b ↦ inr b ]))
]

abbrev with_name : List StrId → StrId → List StrId
with_name ns n = if contains ns n then ns else ns ++ n ∷ []

with_name-keeps :
    (ns : List StrId) (m n : StrId) → contains ns n ≡ true → contains (with_name ns m) n ≡ true
with_name-keeps ns m n h = elim (Bool-cases (contains ns m)) [
  | inl e ↦ rw e h
  | inr e ↦ rw e (contains-append ns (m ∷ []) n (inl h))
]

with_name-adds : (ns : List StrId) (m : StrId) → contains (with_name ns m) m ≡ true
with_name-adds ns m = elim (Bool-cases (contains ns m)) [
  | inl e ↦ rw e e
  | inr e ↦ rw e (contains-append ns (m ∷ []) m (inr (rw (eq_str_refl m))))
]

add_names-keeps :
    (ns : List StrId) (fs : DFields) (n : StrId)
    → contains ns n ≡ true
    → contains (add_names ns fs) n ≡ true
unfolding add_names
add_names-keeps ns end n h = h
add_names-keeps ns (field m p fs) n h =
    add_names-keeps (with_name ns m) fs n (with_name-keeps ns m n h)

add_names-Known : (ns : List StrId) (fs : DFields) → Known (add_names ns fs) fs
unfolding add_names
add_names-Known ns end = tt
add_names-Known ns (field m p fs) = (
  add_names-keeps (with_name ns m) fs m (with_name-adds ns m),
  add_names-Known (with_name ns m) fs,
)

abbrev pub Present : Val → StrId → Type 0
Present v n = Holds (get_field v n) (λ _. Unit {0})

add_names-Present :
    (ns : List StrId) (fs : DFields) (v : Val)
    → All (Present v) ns
    → TypedFields fs v
    → All (Present v) (add_names ns fs)
unfolding add_names
add_names-Present ns end v h t = h
add_names-Present ns (field m p fs) v h t =
    add_names-Present (with_name ns m) fs v
      (elim (Bool-cases (contains ns m)) [
        | inl e ↦ rw e h
        | inr e ↦ rw e (
            All-append (Present v) ns (m ∷ []) h
              (Holds-map (get_field v m) (Typed p) (λ _. Unit {0}) t.1 (λ _ _. tt), tt))
      ])
      t.2

abbrev pub ListOk : Val → Option Siblings → Type 0
ListOk v none = Unit
ListOk v (some ss) = Inhabits (variant "List" 0 ss) v

-- Every name is a field of the value, and the siblings are those of the value's union.
abbrev pub ScanOk : Val → Scan → Type 0
ScanOk v s = All (Present v) s.names × ListOk v s.list

Inhabits-List :
    (u : StrId) (i : ℕ) (ss : Siblings) (v : Val)
    → u ≡ "List"
    → Inhabits (variant u i ss) v
    → Inhabits (variant "List" 0 ss) v
Inhabits-List u i ss (Val.variant w j ts vs) e h = (sym e ∙ h.0, h.1, h.2, h.3, h.4)
Inhabits-List u i ss _ e h = h

or_insert-ListOk :
    (v : Val) (o : Option Siblings) (ss : Siblings)
    → ListOk v o
    → ListOk v (some ss)
    → ListOk v (or_insert o ss)
or_insert-ListOk v none ss h k = k
or_insert-ListOk v (some ts) ss h k = h

scan-ScanOk : (s : Scan) (p : DPat) (v : Val) → ScanOk v s → Typed p v → ScanOk v (scan s p)
unfolding scan
scan-ScanOk s (product k fs) v h t = (add_names-Present s.names fs v h.0 t.1, h.1)
scan-ScanOk s (ctor (variant u i ss) args) v h t = elim (Bool-cases (eq_str u "List")) [
  | inl e ↦
      rw e
        (h.0, or_insert-ListOk v s.list ss h.1 (Inhabits-List u i ss v (eq_str→eq u "List" e) t.0))
  | inr e ↦ rw e h
]
scan-ScanOk s _ v h t = h

pub scan_all-ScanOk :
    (s : Scan) (ps : List DPat) (v : Val)
    → ScanOk v s
    → All (λ p. Typed p v) ps
    → ScanOk v (scan_all s ps)
unfolding scan_all
scan_all-ScanOk s [] v h t = h
scan_all-ScanOk s (p ∷ ps) v h t = scan_all-ScanOk (scan s p) ps v (scan-ScanOk s p v h t.0) t.1

-- The scan has the field names of every product of the column.
abbrev pub Knows : List StrId → DPat → Type 0
Knows ns (product k fs) = Known ns fs
Knows ns _ = Unit

abbrev Within : List StrId → List StrId → Type 0
Within ns ms = (n : StrId) → contains ns n ≡ true → contains ms n ≡ true

scan-keeps : (s : Scan) (p : DPat) → Within s.names (scan s p).names
unfolding scan
scan-keeps s (product k fs) n h = add_names-keeps s.names fs n h
scan-keeps s (ctor (variant u i ss) args) n h = elim (Bool-cases (eq_str u "List")) [
  | inl e ↦ rw e h
  | inr e ↦ rw e h
]
scan-keeps s _ n h = h

scan_all-keeps : (s : Scan) (ps : List DPat) → Within s.names (scan_all s ps).names
unfolding scan_all
scan_all-keeps s [] n h = h
scan_all-keeps s (p ∷ ps) n h = scan_all-keeps (scan s p) ps n (scan-keeps s p n h)

Known-Within : (ns ms : List StrId) (fs : DFields) → Within ns ms → Known ns fs → Known ms fs
Known-Within ns ms end w h = tt
Known-Within ns ms (field m p fs) w h = (w m h.0, Known-Within ns ms fs w h.1)

scan-Knows : (s : Scan) (p : DPat) (ms : List StrId) → Within (scan s p).names ms → Knows ms p
unfolding scan
scan-Knows s (product k fs) ms w =
    Known-Within (add_names s.names fs) ms fs w (add_names-Known s.names fs)
scan-Knows s (ctor c args) ms w = tt
scan-Knows s _ ms w = tt

pub scan_all-Knows : (s : Scan) (ps : List DPat) → All (Knows (scan_all s ps).names) ps
unfolding scan_all
scan_all-Knows s [] = tt
scan_all-Knows s (p ∷ ps) = (
  scan-Knows s p (scan_all (scan s p) ps).names (scan_all-keeps (scan s p) ps),
  scan_all-Knows (scan s p) ps,
)
