-- ===== src/Mm/Elf/Found.antt =====
-- What the loops over the program headers and the dynamic section find.
use theory_os.Base.{
  ℕ, zero, suc, ◌+◌, ◌*◌, ◌/◌, ◌≤◌, ◌<◌, ◌≡◌, ◌≢◌, ◌⊎◌, refl, sym, ap, ◌∙◌, arith, Option, none,
  some, List, ltb, leb, ◌==◌, length, min, Bool-cases, inl, inr,
}
use theory_os.Mm.Elf.{
  Elf64Ehdr, Elf64Phdr, Parsed, ParseError, ok, err, outside, invalid, phdr_at, pt_load, pt_dynamic,
  u64_max, wrap, word_at,
}
use theory_os.Mm.Elf.Segments.{
  min_loop, min_load_vaddr, first_of, DynamicInfo, with_tag, no_info, dynamic_loop, dynamic_of,
  some_info, parse_dynamic,
}

-- A round of the loop, given what the rounds behind it do.
dynamic_round :
    (bytes : List ℕ) (load_bias end fuel off : ℕ) (info : DynamicInfo)
    → (off + 16 ≤ length bytes
        → dynamic_loop bytes load_bias end fuel
            (off + 16)
            (with_tag load_bias (word_at bytes off 8) (word_at bytes (off + 8) 8) info)
          ≢ none)
    → dynamic_loop bytes load_bias end (suc fuel) off info ≢ none
unfolding dynamic_loop
dynamic_round bytes load_bias end fuel off info next =
    elim (Bool-cases (leb (wrap (off + 16)) end)) [
      | inr stop ↦ rw stop (λ e. absurd (cc))
      | inl go ↦ elim (Bool-cases (ltb (length bytes) (off + 16))) [
        | inl out ↦ rw (go, out) (λ e. absurd (cc))
        | inr inside ↦ elim (Bool-cases (word_at bytes off 8 == 0)) [
          | inl last ↦ rw (go, inside, last) (λ e. absurd (cc))
          | inr more ↦ rw (go, inside, more) (next (ground (arith, inside)))
        ]
      ]
    ]

-- The loop ends within the fuel.
dynamic_loop-some :
    (bytes : List ℕ) (load_bias end fuel off : ℕ) (info : DynamicInfo)
    → length bytes < off + 16 * suc fuel
    → dynamic_loop bytes load_bias end (suc fuel) off info ≢ none
dynamic_loop-some bytes load_bias end zero off info h =
    dynamic_round bytes load_bias end zero off info (λ inside. absurd (omega (arith, h)))
dynamic_loop-some bytes load_bias end (suc fuel) off info h =
    dynamic_round bytes load_bias end (suc fuel) off info (λ inside.
      dynamic_loop-some bytes load_bias end fuel (off + 16)
        (with_tag load_bias (word_at bytes off 8) (word_at bytes (off + 8) 8) info)
        (omega (arith, h)))

some_info-some : (r : Option (Parsed DynamicInfo)) → r ≢ none → some_info r ≢ none
some_info-some none h e = h refl
some_info-some (some r) h e = absurd (cc)

dynamic_of-some :
    (bytes : List ℕ) (load_bias : ℕ) (ph : Elf64Phdr) → dynamic_of bytes load_bias ph ≢ none
dynamic_of-some bytes load_bias ph =
    elim (Bool-cases (ltb (length bytes) (wrap (ph.p_offset + ph.p_filesz)))) [
      | inl bad ↦ rw bad (λ e. absurd (cc))
      | inr good ↦ rw good (
          dynamic_loop-some bytes load_bias (wrap (ph.p_offset + ph.p_filesz)) (length bytes / 16)
            ph.p_offset no_info (omega arith))
    ]

-- The answer of a search for a header.
Parsed-cases :
    {A : Type 0} (r : Parsed A)
    → (r ≡ outside) ⊎ (((e : ParseError) × (r ≡ err e)) ⊎ ((a : A) × (r ≡ ok a)))
Parsed-cases outside = inl refl
Parsed-cases (err e) = inr (inl (e, refl))
Parsed-cases (ok a) = inr (inr (a, refl))

-- For every file and header the loop over the dynamic section ends.
pub parse_dynamic-some :
    (bytes : List ℕ) (hdr : Elf64Ehdr) (load_bias : ℕ) → parse_dynamic bytes hdr load_bias ≢ none
unfolding parse_dynamic
parse_dynamic-some bytes hdr load_bias =
    elim (Parsed-cases (first_of bytes hdr pt_dynamic hdr.e_phnum 0)) [
      | inl bad ↦ rw (bad, parse_dynamic) (λ e. absurd (cc))
      | inr (inl (e, bad)) ↦ rw (bad, parse_dynamic) (λ z. absurd (cc))
      | inr (inr (none, found)) ↦ rw (found, parse_dynamic) (λ z. absurd (cc))
      | inr (inr (some ph, found)) ↦
          rw (found, parse_dynamic)
            (some_info-some (dynamic_of bytes load_bias ph) (dynamic_of-some bytes load_bias ph))
    ]

-- A loaded segment among the headers from `i` on, up to `n`.
abbrev IsLoaded : List ℕ → Elf64Ehdr → ℕ → Elf64Phdr → Type 0
IsLoaded bytes hdr j ph = (phdr_at bytes hdr j ≡ ok ph) × (ph.p_type ≡ pt_load)

le-cases : (i j : ℕ) → i ≤ j → (i ≡ j) ⊎ (i + 1 ≤ j)
le-cases i j h = elim (Bool-cases (ltb i j)) [
  | inl less ↦ inr (ground (arith, less))
  | inr same ↦ inl (ground (arith, same))
]

same_header :
    (bytes : List ℕ) (hdr : Elf64Ehdr) (i j : ℕ) (a b : Elf64Phdr)
    → i ≡ j
    → phdr_at bytes hdr i ≡ ok a
    → phdr_at bytes hdr j ≡ ok b
    → a ≡ b
same_header bytes hdr i j a b e x y =
    let both : ok a ≡ ok b = sym x ∙ (ap (phdr_at bytes hdr) e ∙ y) in cc

min_loop_lem :
    (bytes : List ℕ) (hdr : Elf64Ehdr) (n i acc least : ℕ)
    → min_loop bytes hdr n i acc ≡ ok least
    → (least ≤ acc)
      × ((j : ℕ) (ph : Elf64Phdr)
          → i ≤ j
          → j < i + n
          → IsLoaded bytes hdr j ph
          → least ≤ ph.p_vaddr)
      × ((least ≡ acc)
          ⊎ ((j : ℕ) × (ph : Elf64Phdr) × (i ≤ j)
              × (j < i + n)
              × IsLoaded bytes hdr j ph
              × (ph.p_vaddr ≡ least)))
unfolding min_loop
min_loop_lem bytes hdr zero i acc least h =
    let it : acc ≡ least = cc in
    (omega (arith, it), (λ j ph lo hi x. absurd (omega arith)), inl (sym it))
min_loop_lem bytes hdr (suc n) i acc least h = elim (Parsed-cases (phdr_at bytes hdr i)) [
  | inl bad ↦ let whole : ◌≡◌ {A = Parsed ℕ} outside (ok least) = rw bad at h in absurd (cc)
  | inr (inl (e, bad)) ↦
      let whole : ◌≡◌ {A = Parsed ℕ} (err e) (ok least) = rw bad at h in absurd (cc)
  | inr (inr (ph, here)) ↦ elim (Bool-cases (ph.p_type == pt_load)) [
    | inr other ↦
        let h' : min_loop bytes hdr n (i + 1) acc ≡ ok least = rw (here, other) at h in
        let (below, each, found) = min_loop_lem bytes hdr n (i + 1) acc least h' in
        (
          below,
          (λ j p lo hi (at, load). elim (le-cases i j lo) [
            | inl e ↦ absurd (
                ground (
                  arith,
                  other,
                  load,
                  ap (λ x. x.p_type) (same_header bytes hdr i j ph p e here at),
                ))
            | inr above ↦ each j p above (omega arith) (at, load)
          ]),
          elim found [
            | inl same ↦ inl same
            | inr (j, p, lo, hi, x, v) ↦ inr (j, p, omega (arith, lo), omega (arith, hi), x, v)
          ],
        )
    | inl load ↦
        let h' : min_loop bytes hdr n (i + 1) (min acc ph.p_vaddr) ≡ ok least =
          rw (here, load) at h in
        let (below, each, found) = min_loop_lem bytes hdr n (i + 1) (min acc ph.p_vaddr) least h' in
        (
          omega (arith, below),
          (λ j p lo hi (at, isl). elim (le-cases i j lo) [
            | inl e ↦
                omega (arith, below, ap (λ x. x.p_vaddr) (same_header bytes hdr i j ph p e here at))
            | inr above ↦ each j p above (omega arith) (at, isl)
          ]),
          elim found [
            | inl same ↦ elim (Bool-cases (ltb ph.p_vaddr acc)) [
              | inl less ↦ inr (
                i,
                ph,
                omega arith,
                omega arith,
                (here, ground (arith, load)),
                ground (arith, less, same),
              )
              | inr more ↦ inl (ground (arith, more, same))
            ]
            | inr (j, p, lo, hi, x, v) ↦ inr (j, p, omega (arith, lo), omega (arith, hi), x, v)
          ],
        )
  ]
]

-- Where `min_load_vaddr` gives an address, it is at most the address of every loaded segment and
-- is that of one.
pub min_load_vaddr_lem :
    (bytes : List ℕ) (hdr : Elf64Ehdr) (least : ℕ)
    → min_load_vaddr bytes hdr ≡ ok least
    → ((i : ℕ) (ph : Elf64Phdr)
        → i < hdr.e_phnum
        → phdr_at bytes hdr i ≡ ok ph
        → ph.p_type ≡ pt_load
        → least ≤ ph.p_vaddr)
      × ((i : ℕ) × (ph : Elf64Phdr) × (i < hdr.e_phnum)
          × (phdr_at bytes hdr i ≡ ok ph)
          × (ph.p_type ≡ pt_load)
          × (ph.p_vaddr ≡ least))
unfolding min_load_vaddr
min_load_vaddr_lem bytes hdr least h =
    elim (Parsed-cases (min_loop bytes hdr hdr.e_phnum 0 u64_max)) [
      | inl bad ↦
          let whole : ◌≡◌ {A = Parsed ℕ} outside (ok least) = rw (bad, min_load_vaddr) at h in
          absurd (cc)
      | inr (inl (e, bad)) ↦
          let whole : ◌≡◌ {A = Parsed ℕ} (err e) (ok least) = rw (bad, min_load_vaddr) at h in
          absurd (cc)
      | inr (inr (m, found)) ↦ elim (Bool-cases (m == u64_max)) [
        | inl most ↦
            let whole : ◌≡◌ {A = Parsed ℕ} (err invalid) (ok least) =
              rw (found, most, min_load_vaddr) at h in
            absurd (cc)
        | inr less ↦
            let whole : ok m ≡ ok least = rw (found, less, min_load_vaddr) at h in
            let it : m ≡ least = cc in
            let (_, each, at) = min_loop_lem bytes hdr hdr.e_phnum 0 u64_max m found in
            (
              λ i ph lt x load. omega (arith, it, each i ph (omega arith) (omega arith) (x, load)),
              elim at [
                | inl none_ ↦ absurd (ground (arith, less, none_))
                | inr (j, ph, _, lt, (x, load), v) ↦ (j, ph, omega (arith, lt), x, load, v ∙ it)
              ],
            )
      ]
    ]
