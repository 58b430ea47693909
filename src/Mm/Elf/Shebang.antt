-- ===== src/Mm/Elf/Shebang.antt =====
-- kernel/src/mm/elf/parse.rs: the first line of a script.
use theory_os.Base.{
  ℕ, ◌<◌, ◌≡◌, ◌≢◌, refl, ap, arith, Bool, true, false, not, ◌&&◌, ◌||◌, Option, none, some, List,
  [], ◌∷◌, ◌++◌, ◌==◌, if◌then◌else◌, length, All, All-map, All-append,
}

abbrev pub newline : ℕ
newline = 10

-- A space or a tab.
abbrev pub is_blank : ℕ → Bool
is_blank b = (b == 32) || (b == 9)

-- The bytes in front of the first one that passes, and the others.
unfoldable pub split_at : (ℕ → Bool) → List ℕ → List ℕ × List ℕ
split_at test [] = ([], [])
split_at test (b ∷ bytes) =
    let (before, behind) = split_at test bytes in
    if test b then ([], b ∷ bytes) else (b ∷ before, behind)

-- From the path on, without the blanks in front of it.
abbrev pub path_and_argument : List ℕ → Option (List ℕ × List ℕ)
path_and_argument [] = none
path_and_argument (b ∷ rest) = some (split_at is_blank (b ∷ rest))

unfoldable pub parse_shebang : List ℕ → Option (List ℕ × List ℕ)
unfolding split_at
parse_shebang (a ∷ b ∷ bytes) =
    if (a == 0x23) && (b == 0x21)
    then path_and_argument
        (split_at (λ c. not (is_blank c)) (split_at (λ c. c == newline) bytes).0).1
    else none
parse_shebang _ = none

-- Nothing, or something that the test passes first.
abbrev pub Starts : (ℕ → Bool) → List ℕ → Type 0
Starts test [] = Unit
Starts test (b ∷ bytes) = test b ≡ true

split_at-append :
    (test : ℕ → Bool) (xs ys : List ℕ)
    → All (λ b. test b ≡ false) xs
    → Starts test ys
    → split_at test (xs ++ ys) ≡ (xs, ys)
unfolding split_at
split_at-append test [] [] none_pass first = refl
split_at-append test [] (y ∷ ys) none_pass first = rw first refl
split_at-append test (x ∷ xs) ys (fails, none_pass) first =
    rw (fails, split_at-append test xs ys none_pass first) refl

-- Where the first line is #!, blanks, a path without blanks and an argument that is empty or starts
-- with a blank, `parse_shebang` gives the path and the argument.
pub parse_shebang_lem :
    (blanks path argument rest : List ℕ)
    → All (λ b. is_blank b ≡ true) blanks
    → All (λ b. (is_blank b ≡ false) × (b ≢ newline)) path
    → 0 < length path
    → All (λ b. b ≢ newline) argument
    → Starts is_blank argument
    → parse_shebang (0x23 ∷ 0x21 ∷ (blanks ++ (path ++ argument)) ++ (newline ∷ rest))
      ≡ some (path, argument)
unfolding parse_shebang
parse_shebang_lem blanks [] argument rest bl pa some_byte ar first = absurd (omega arith)
parse_shebang_lem blanks (p ∷ path) argument rest bl (pb, pa) some_byte ar first =
    let in_line : All (λ b. (b == newline) ≡ false) (blanks ++ ((p ∷ path) ++ argument)) =
      All-append (λ b. (b == newline) ≡ false) blanks ((p ∷ path) ++ argument)
        (All-map blanks (λ b h. ground (arith, h)) bl)
        (All-append (λ b. (b == newline) ≡ false) (p ∷ path) argument
          (All-map (p ∷ path) (λ b (_, h). ground (arith, h)) (pb, pa))
          (All-map argument (λ b h. ground (arith, h)) ar)) in
    let no_blank : not (is_blank p) ≡ true = ap not pb.0 in
    rw
      (
        split_at-append (λ c. c == newline) (blanks ++ ((p ∷ path) ++ argument)) (newline ∷ rest)
            in_line refl,
        split_at-append (λ c. not (is_blank c)) blanks ((p ∷ path) ++ argument)
            (All-map blanks (λ b h. ap not h) bl) no_blank,
        split_at-append is_blank (p ∷ path) argument (All-map (p ∷ path) (λ b (h, _). h) (pb, pa))
            first,
        parse_shebang,
      )
      refl
