-- ===== src/Net/Ipv4/Laws.antt =====
-- Packets that are built and parsed.
use theory_os.Base.{
  ℕ, ◌+◌, ◌*◌, ◌/◌, ◌%◌, ◌≤◌, ◌<◌, ◌≡◌, refl, sym, ap, ◌∙◌, false, none, some, List, [], ◌∷◌, ◌++◌,
  arith, length, take, drop, ltb, ◌==◌, if◌then◌else◌, Bool-cases, inl, inr,
}
use theory_os.Base.Bytes.{u16_to_be_bytes, Cells, on_cells, copy_into_lem, drop_add}
use theory_os.Mm.Checked.{◌>>=◌}
use theory_os.Net.Addr.{Ipv4Addr, bytes_of}
use theory_os.Net.Addr.Laws.{IsIpv4}
use theory_os.Net.Checksum.{checksum}
use theory_os.Net.Checksum.Laws.{checksum-checksum, checksum-lt, All-append}
use theory_os.Net.Ipv4.{Ipv4Header, parse, build, stored_checksum}

-- The header in front of `n` bytes of payload, with the checksum `c`.
abbrev pub header : Ipv4Addr → Ipv4Addr → ℕ → ℕ → ℕ → List ℕ
header src dst protocol n c =
    (0x45 ∷ 0 ∷ u16_to_be_bytes (20 + n))
    ++ ((0 ∷ 0 ∷ 0x40 ∷ 0 ∷ 64 ∷ protocol ∷ [])
        ++ (u16_to_be_bytes c ++ (bytes_of src ++ bytes_of dst)))

-- The checksum of the header.
abbrev pub built_checksum : Ipv4Addr → Ipv4Addr → ℕ → List ℕ → ℕ
built_checksum src dst protocol payload = checksum (header src dst protocol (length payload) 0)

-- `build` stores the header with its checksum and the payload in a buffer with room for both.
pub build_lem :
    (src dst : Ipv4Addr) (protocol : ℕ) (payload out : List ℕ)
    → 20 + length payload ≤ length out
    → build src dst protocol payload out
      ≡ some (
        20 + length payload,
        header src dst protocol (length payload) (built_checksum src dst protocol payload)
            ++ (payload ++ drop (20 + length payload) out),
      )
unfolding build
build_lem src dst protocol payload out room = on_cells 20 Stored stored out (omega arith) room
  where
    total : ℕ
    total = 20 + length payload

    written : List ℕ
    written = header src dst protocol (length payload) (built_checksum src dst protocol payload)

    Stored : List ℕ → Type 0
    Stored o =
        total ≤ length o
        → build src dst protocol payload o ≡ some (total, written ++ (payload ++ drop total o))

    stored : Cells 20 Stored
    stored o0 o1 o2 o3 o4 o5 o6 o7 o8 o9 o10 o11 o12 o13 o14 o15 o16 o17 o18 o19 rest room =
        ap (λ b. b >>= λ out. some (total, out)) (copy_into_lem (written ++ rest) 20 payload room)
        ∙ ap (λ l. some (total, written ++ (payload ++ l)))
            (drop_add 20 (length payload) (written ++ rest) ∙ sym (drop_add 20 (length payload) _))

-- The header that `build` writes, as `parse` reads it.
abbrev pub built_header : Ipv4Addr → Ipv4Addr → ℕ → List ℕ → Ipv4Header
built_header src dst protocol payload = record {
  src = src;
  dst = dst;
  protocol = protocol;
  ttl = 64;
  total_len = 20 + length payload;
  header_len = 20;
}

module _ (src dst : Ipv4Addr) (protocol : ℕ) (payload : List ℕ) (hs : IsIpv4 src) (hd : IsIpv4 dst)
    (hp : protocol < 256) (short : length payload ≤ 65515) where
  abbrev c : ℕ
  c = built_checksum src dst protocol payload

  stored : c / 256 % 256 * 256 + c % 256 ≡ c
  stored = omega (arith, checksum-lt (header src dst protocol (length payload) 0))

  -- What `checksum` gives for the header with its checksum in place.
  checksum-header : checksum (header src dst protocol (length payload) c) ≡ 0
  checksum-header =
      checksum-checksum 5
        (0x45
          ∷ 0
          ∷ (20 + length payload) / 256 % 256
          ∷ (20 + length payload) % 256
          ∷ 0
          ∷ 0
          ∷ 0x40
          ∷ 0
          ∷ 64
          ∷ protocol
          ∷ [])
        (bytes_of src ++ bytes_of dst) refl
        (
          omega arith,
          (
            omega arith,
            (
              omega arith,
              (
                omega arith,
                (omega arith, (omega arith, (omega arith, (omega arith, (omega arith, (hp, tt)))))),
              ),
            ),
          ),
        )
        (All-append (bytes_of src) (bytes_of dst) hs hd) (omega arith)

  parse_built :
      (rest : List ℕ)
      → parse (header src dst protocol (length payload) c ++ rest)
        ≡ (if c == 0 then some (built_header src dst protocol payload, 20) else none)
  unfolding parse
  parse_built rest =
      let room : ltb (length (header src dst protocol (length payload) c ++ rest)) 20 ≡ false =
        ground arith in
      let total : (20 + length payload) / 256 % 256 * 256 + (20 + length payload) % 256
          ≡ 20 + length payload =
        omega arith in
      elim (Bool-cases (c == 0)) [
        | inl absent ↦ rw (absent, room, checksum-header, stored, total, absent) refl
        | inr present ↦
            let flipped : (0 == c) ≡ false = ground (arith, present) in
            rw (present, room, checksum-header, stored, present, flipped) refl
      ]

-- In a buffer with room, `build` stores a packet whose header has the checksum 0, and `parse` takes
-- the packet, and then gives back what `build` was given, exactly if the checksum stored in it is 0.
pub parse-build :
    (src dst : Ipv4Addr) (protocol : ℕ) (payload out : List ℕ)
    → IsIpv4 src
    → IsIpv4 dst
    → protocol < 256
    → length payload ≤ 65515
    → 20 + length payload ≤ length out
    → (buf : List ℕ) × (build src dst protocol payload out ≡ some (20 + length payload, buf))
      × (checksum (take 20 buf) ≡ 0)
      × (parse buf ≡ (
          if stored_checksum buf == 0
          then some (built_header src dst protocol payload, 20)
          else none))
parse-build src dst protocol payload out hs hd hp short room = (
  header src dst protocol (length payload) (built_checksum src dst protocol payload)
      ++ (payload ++ drop (20 + length payload) out),
  build_lem src dst protocol payload out room,
  checksum-header src dst protocol payload hs hd hp short,
  rw (stored src dst protocol payload hs hd hp short) (
      parse_built src dst protocol payload hs hd hp short
        (payload ++ drop (20 + length payload) out)),
)
