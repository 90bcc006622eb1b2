-- ===== src/Records/ChainFile/Laws.antt =====
-- Appending keeps a chain whole, and a chain that is whole cannot be changed unnoticed.
use mathlib.Core.Bool.{false≢true}
use sentinel_grc.Prelude.{
  ℕ, suc, ◌+◌, true, false, String, ◌≡◌, ◌≢◌, refl, sym, ◌∙◌, ap, ◌⊎◌, inl, inr, Option, none, some,
  List, [], ◌∷◌, ◌++◌, arith, string_eq, eq_iff, beq_refl, opt_is, length, Bool-cases,
}
use sentinel_grc.Prelude.Attempt.{failed, done, done_inj}
use sentinel_grc.Records.ChainFile.{
  Line, object_line, other_json, no_json, blank, File, absent, undecodable, lines, Chained, intact,
  unreadable, genesis, is_valid, is_blank, lines_of, last_or, fits, check_lines, verify, last_hash,
  pieces, written, append, invalid,
}

-- Two different objects with one hash.
pub record Collision {R : Type 0} (c : Chained R) : Type 0 where
  pub first : R
  pub second : R
  pub different : first ≢ second
  pub same_hash : c.digest first ≡ c.digest second

module _ {R : Type 0} (c : Chained R) where
  -- The records of a chain that starts behind a hash.
  abbrev pub Links : String → List (Line R) → Type 0
  Links previous [] = Unit
  Links previous (object_line r h ∷ ls) =
      (c.previous r ≡ some previous) × (h ≡ some (c.digest r)) × Links (c.digest r) ls
  Links previous (other_json ∷ ls) = ⊥
  Links previous (no_json ∷ ls) = ⊥
  Links previous (blank ∷ ls) = ⊥

  opt_is-eq : (o : Option String) (s : String) → opt_is o s ≡ true → o ≡ some s
  opt_is-eq none s h = absurd (false≢true h)
  opt_is-eq (some x) s h = ap some ((eq_iff x s).0 h)

  opt_is-some : (s : String) → opt_is (some s) s ≡ true
  opt_is-some s = beq_refl s

  pub check_lines-Links :
      (ls : List (Line R)) (n : ℕ) (previous : String)
      → is_valid (check_lines c n previous ls) ≡ true
      → Links previous ls
  unfolding check_lines
  check_lines-Links [] n previous h = tt
  check_lines-Links (object_line r h ∷ ls) n previous v = elim (Bool-cases (fits c previous r h)) [
    | inl good ↦
        let a : opt_is (c.previous r) previous ≡ true = ground arith in
        let b : opt_is h (c.digest r) ≡ true = ground arith in
        let own = opt_is-eq h (c.digest r) b in
        (
          opt_is-eq (c.previous r) previous a,
          own,
          check_lines-Links ls (n + 1) (c.digest r) (rw (good, own) at v),
        )
    | inr bad ↦ absurd (false≢true (rw bad at v))
  ]
  check_lines-Links (other_json ∷ ls) n previous v = absurd (false≢true v)
  check_lines-Links (no_json ∷ ls) n previous v = absurd (false≢true v)
  check_lines-Links (blank ∷ ls) n previous v = absurd (false≢true v)

  Links-check_lines :
      (ls : List (Line R)) (n : ℕ) (previous : String)
      → Links previous ls
      → check_lines c n previous ls ≡ intact
  unfolding check_lines
  Links-check_lines [] n previous l = refl
  Links-check_lines (object_line r h ∷ ls) n previous (p, own, rest) =
      rw (p, own, opt_is-some previous, opt_is-some (c.digest r))
        (Links-check_lines ls (n + 1) (c.digest r) rest)
  Links-check_lines (other_json ∷ ls) n previous l = absurd l
  Links-check_lines (no_json ∷ ls) n previous l = absurd l
  Links-check_lines (blank ∷ ls) n previous l = absurd l

  Links-append :
      (ls : List (Line R)) (previous : String) (r : R)
      → Links previous ls
      → c.previous r ≡ some (last_or previous ls)
      → Links previous (ls ++ object_line r (some (c.digest r)) ∷ [])
  Links-append [] previous r l p = (p, refl, tt)
  Links-append (object_line s h ∷ ls) previous r (q, own, rest) p =
      (q, own, Links-append ls (c.digest s) r rest (rw own at p))
  Links-append (other_json ∷ ls) previous r l p = absurd l
  Links-append (no_json ∷ ls) previous r l p = absurd l
  Links-append (blank ∷ ls) previous r l p = absurd l

  -- The lines of a file that verifies.
  pub whole-Links :
      (file : File R) → is_valid (verify c file) ≡ true → Links genesis (lines_of file)
  unfolding verify
  whole-Links absent v = tt
  whole-Links undecodable v = absurd (false≢true v)
  whole-Links (lines ls) v = check_lines-Links ls 1 genesis v

  pub blank-Links :
      (ls : List (Line R)) (previous d : String)
      → Links previous ls
      → is_blank ls ≡ true
      → last_or d ls ≡ d
  blank-Links [] previous d l b = refl
  blank-Links (object_line r h ∷ ls) previous d l b = absurd (false≢true b)
  blank-Links (other_json ∷ ls) previous d l b = absurd l
  blank-Links (no_json ∷ ls) previous d l b = absurd l
  blank-Links (blank ∷ ls) previous d l b = absurd l

  -- What is appended to a file that verifies stands behind the hash of its last line.
  pub last_hash-whole :
      (file : File R)
      → is_valid (verify c file) ≡ true
      → last_hash c file ≡ done (last_or genesis (lines_of file))
  unfolding last_hash verify
  last_hash-whole absent v = refl
  last_hash-whole undecodable v = absurd (false≢true v)
  last_hash-whole (lines ls) v = elim (Bool-cases (is_blank ls)) [
    | inl b ↦ rw (b, blank-Links ls genesis genesis (check_lines-Links ls 1 genesis v) b) refl
    | inr filled ↦ rw (filled, v) refl
  ]

  -- An append to a file that verifies succeeds.
  pub append-whole :
      (build : String → R) (file : File R)
      → is_valid (verify c file) ≡ true
      → append c build file
        ≡ done (
          build (last_or genesis (lines_of file)),
          lines (
              lines_of file
              ++ written c
                  (c.breaks (build (last_or genesis (lines_of file))))
                  (build (last_or genesis (lines_of file)))),
        )
  unfolding append
  append-whole build file v = rw (last_hash-whole file v) refl

  -- If the record has no line end, the longer file verifies too.
  pub append-verify :
      (build : String → R) (file file' : File R) (r : R)
      → ((h : String) → c.previous (build h) ≡ some h)
      → is_valid (verify c file) ≡ true
      → append c build file ≡ done (r, file')
      → c.breaks r ≡ 0
      → (verify c file' ≡ intact)
        × (lines_of file' ≡ lines_of file ++ object_line r (some (c.digest r)) ∷ [])
  unfolding verify
  append-verify build file file' r chained v ran one_line =
      let h = last_or genesis (lines_of file) in
      let same = done_inj (sym ran ∙ append-whole build file v) in
      let r_is : r ≡ build h = ap (λ (p : R × File R). p.0) same in
      let file_is : file' ≡ lines (lines_of file ++ object_line r (some (c.digest r)) ∷ []) =
        ap (λ (p : R × File R). p.1) same ∙ rw (← r_is) (rw one_line refl) in
      (
        rw file_is (
            Links-check_lines (lines_of file ++ object_line r (some (c.digest r)) ∷ []) 1 genesis
              (Links-append (lines_of file) genesis r (whole-Links file v) (rw r_is (chained h)))),
        ap lines_of file_is,
      )

  cut-unreadable :
      (ls more : List (Line R)) (n : ℕ) (previous : String)
      → Links previous ls
      → check_lines c n previous (ls ++ no_json ∷ more) ≡ unreadable
  unfolding check_lines
  cut-unreadable [] more n previous l = refl
  cut-unreadable (object_line r h ∷ ls) more n previous (p, own, rest) =
      rw (p, own, opt_is-some previous, opt_is-some (c.digest r))
        (cut-unreadable ls more (n + 1) (c.digest r) rest)
  cut-unreadable (other_json ∷ ls) more n previous l = absurd l
  cut-unreadable (no_json ∷ ls) more n previous l = absurd l
  cut-unreadable (blank ∷ ls) more n previous l = absurd l

  cut-not_blank : (ls more : List (Line R)) → is_blank (ls ++ no_json ∷ more) ≡ false
  cut-not_blank [] more = refl
  cut-not_blank (object_line r h ∷ ls) more = refl
  cut-not_blank (other_json ∷ ls) more = refl
  cut-not_blank (no_json ∷ ls) more = refl
  cut-not_blank (blank ∷ ls) more = cut-not_blank ls more

  -- If the record has a line end, the file no longer verifies, and whatever is appended next is refused.
  pub append-cut :
      (build next : String → R) (file file' : File R) (r : R) (n : ℕ)
      → is_valid (verify c file) ≡ true
      → append c build file ≡ done (r, file')
      → c.breaks r ≡ suc n
      → (verify c file' ≡ unreadable) × (append c next file' ≡ failed (invalid unreadable))
  unfolding verify append last_hash
  append-cut build next file file' r n v ran cut =
      let h = last_or genesis (lines_of file) in
      let same = done_inj (sym ran ∙ append-whole build file v) in
      let r_is : r ≡ build h = ap (λ (p : R × File R). p.0) same in
      let file_is : file' ≡ lines (lines_of file ++ no_json ∷ pieces c (suc n)) =
        ap (λ (p : R × File R). p.1) same ∙ rw (← r_is) (rw cut refl) in
      let bad = cut-unreadable (lines_of file) (pieces c (suc n)) 1 genesis (whole-Links file v) in
      (rw file_is bad, rw file_is (rw (cut-not_blank (lines_of file) (pieces c (suc n)), bad) refl))

  -- The chain of two files with one hash at the end: they agree, or two objects share a hash.
  pub Links-unique :
      ((r s : R) → (r ≡ s) ⊎ (r ≢ s))
      → (xs ys : List (Line R)) (p q : String) → length xs ≡ length ys
      → Links p xs
      → Links q ys
      → last_or p xs ≡ last_or q ys
      → ((p ≡ q) × (xs ≡ ys)) ⊎ Collision c
  Links-unique decide [] [] p q n l m same = inl (same, refl)
  Links-unique decide [] (y ∷ ys) p q n l m same = absurd (omega (arith, n))
  Links-unique decide (x ∷ xs) [] p q n l m same = absurd (omega (arith, n))
  Links-unique decide (object_line r h ∷ xs) (object_line s k ∷ ys) p q n (a, b, l) (a', b', m)
        same =
      elim (Links-unique decide xs ys (c.digest r) (c.digest s) (omega (arith, n)) l m
        (rw (b, b') at same)) [
          | inr hit ↦ inr hit
          | inl (hashes, rest) ↦ elim (decide r s) [
            | inl equal ↦ inl (cc, cc)
            | inr apart ↦
                inr (record { first = r; second = s; different = apart; same_hash = hashes })
          ]
        ]
  Links-unique decide (object_line r h ∷ xs) (other_json ∷ ys) p q n l m same = absurd m
  Links-unique decide (object_line r h ∷ xs) (no_json ∷ ys) p q n l m same = absurd m
  Links-unique decide (object_line r h ∷ xs) (blank ∷ ys) p q n l m same = absurd m
  Links-unique decide (other_json ∷ xs) (y ∷ ys) p q n l m same = absurd l
  Links-unique decide (no_json ∷ xs) (y ∷ ys) p q n l m same = absurd l
  Links-unique decide (blank ∷ xs) (y ∷ ys) p q n l m same = absurd l
