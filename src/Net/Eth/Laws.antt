-- ===== src/Net/Eth/Laws.antt =====
-- Frames that are built and parsed.
use theory_os.Base.{
  ℕ, ◌+◌, ◌*◌, ◌/◌, ◌%◌, ◌^◌, ◌≤◌, ◌<◌, ◌≡◌, ◌≢◌, refl, sym, ap, ◌∙◌, false, ◌==◌, true, false,
  some, List, [], ◌++◌, arith, length, length-drop, drop, ltb, if◌then◌else◌, Bool-cases, inl, inr,
}
use theory_os.Base.Bytes.{u16_to_be_bytes}
use theory_os.Net.Addr.{MacAddr, octets}
use theory_os.Net.Buffer.{PacketBuf, clear, bytes, extend_from_slice}
use theory_os.Net.Buffer.Laws.{IsValid, extend_from_slice_lem, length-bytes}
use theory_os.Net.Eth.{parse, build, dispatch, handler, arp, ipv4, ipv6, nobody}

clear-IsValid : (p : PacketBuf) → IsValid p → IsValid (clear p)
unfolding clear
clear-IsValid p v = record { size = v.size; fits = omega arith }

abbrev pub header : MacAddr → MacAddr → ℕ → List ℕ
header dst src ethertype = octets dst ++ (octets src ++ u16_to_be_bytes ethertype)

-- The buffer once the header is in it.
abbrev headed : MacAddr → MacAddr → ℕ → PacketBuf → PacketBuf
headed dst src ethertype out = record {
  storage = header dst src ethertype ++ drop 2 (drop 6 (drop 6 out.storage));
  len = 14;
}

headed-IsValid :
    (dst src : MacAddr) (ethertype : ℕ) (out : PacketBuf)
    → IsValid out
    → IsValid (headed dst src ethertype out)
headed-IsValid dst src ethertype out v = record {
  size = rw (length-drop, length-drop, length-drop) (omega (arith, v.size));
  fits = omega arith;
}

build-headed :
    (dst src : MacAddr) (ethertype : ℕ) (payload : List ℕ) (out : PacketBuf)
    → build dst src ethertype payload out
      ≡ (extend_from_slice payload (headed dst src ethertype out)).1
unfolding build
build-headed dst src ethertype payload out = refl

-- The frame holds the header, and the payload where both fit in 2048 bytes; a longer payload is
-- left out.
pub bytes-build :
    (dst src : MacAddr) (ethertype : ℕ) (payload : List ℕ) (out : PacketBuf)
    → IsValid out
    → IsValid (build dst src ethertype payload out)
      × (bytes (build dst src ethertype payload out)
          ≡ header dst src ethertype ++ (if ltb 2034 (length payload) then [] else payload))
bytes-build dst src ethertype payload out v = rw (build-headed dst src ethertype payload out) (
  extended.0,
  elim (Bool-cases (ltb 2034 (length payload))) [
    | inl long ↦ rw (long, extended.2 (ground (arith, long))) refl
    | inr short ↦ rw short (extended.1 (ground (arith, short))).1
  ],
)
  where
    start : PacketBuf
    start = headed dst src ethertype out

    extended :
        IsValid (extend_from_slice payload start).1
        × (start.len + length payload ≤ 2048
            → ((extend_from_slice payload start).0 ≡ true)
              × (bytes (extend_from_slice payload start).1 ≡ bytes start ++ payload))
        × (2048 < start.len + length payload → extend_from_slice payload start ≡ (false, start))
    extended = extend_from_slice_lem payload start (headed-IsValid dst src ethertype out v)

dispatch_headed :
    (dst src : MacAddr) (ethertype : ℕ) (payload : List ℕ) (buf : PacketBuf)
    → ethertype < 2 ^ 16
    → bytes buf ≡ header dst src ethertype ++ payload
    → 14 ≤ buf.len
    → dispatch buf ≡ handler (record { dst = dst; src = src; ethertype = ethertype }) payload
unfolding dispatch parse
dispatch_headed dst src ethertype payload buf small e enough =
    let room : ltb buf.len 14 ≡ false = ground arith in
    let word : ethertype / 256 % 256 * 256 + ethertype % 256 ≡ ethertype = omega arith in
    let parsed : parse buf ≡ some (record { dst = dst; src = src; ethertype = ethertype }, 14) =
      rw (room, e, word, parse) refl in
    rw (parsed, e, dispatch) refl

-- In a well-formed buffer and for a type of 16 bits, a frame from `build` is handed to ARP if its
-- type is 0x0806, to IPv4 if it is 0x0800, to IPv6 if it is 0x86dd, and to nobody otherwise: with the
-- addresses and the type it was built with, and with the payload, of which nothing is left if it has
-- more than 2034 bytes.
pub dispatch-build :
    (dst src : MacAddr) (ethertype : ℕ) (payload rest : List ℕ) (out : PacketBuf)
    → IsValid out
    → ethertype < 2 ^ 16
    → (length payload ≤ 2034 → rest ≡ payload)
    → (2034 < length payload → rest ≡ [])
    → (ethertype ≡ 0x0806
        → dispatch (build dst src ethertype payload out)
          ≡ arp (record { dst = dst; src = src; ethertype = 0x0806 }) rest)
      × (ethertype ≡ 0x0800
          → dispatch (build dst src ethertype payload out)
            ≡ ipv4 (record { dst = dst; src = src; ethertype = 0x0800 }) rest)
      × (ethertype ≡ 0x86dd
          → dispatch (build dst src ethertype payload out)
            ≡ ipv6 (record { dst = dst; src = src; ethertype = 0x86dd }) rest)
      × (ethertype ≢ 0x0806
          → ethertype ≢ 0x0800
          → ethertype ≢ 0x86dd
          → dispatch (build dst src ethertype payload out) ≡ nobody)
dispatch-build dst src ethertype payload rest out v small short long =
    let left : (if ltb 2034 (length payload) then [] else payload) ≡ rest =
      elim (Bool-cases (ltb 2034 (length payload))) [
        | inl more ↦ rw more (sym (long (ground (arith, more))))
        | inr less ↦ rw less (sym (short (ground (arith, less))))
      ] in
    let (valid, e) = bytes-build dst src ethertype payload out v in
    let handed : dispatch (build dst src ethertype payload out)
        ≡ handler (record { dst = dst; src = src; ethertype = ethertype }) rest =
      dispatch_headed dst src ethertype _ _ small e
        (omega (arith, length-bytes _ valid, ap length e))
      ∙ ap (handler (record { dst = dst; src = src; ethertype = ethertype })) left in
    (
      (λ is. handed ∙ rw is refl),
      (λ is. handed ∙ rw is refl),
      (λ is. handed ∙ rw is refl),
      λ no_arp no_v4 no_v6.
          let b1 : (ethertype == 0x0806) ≡ false = ground (arith, no_arp) in
          let b2 : (ethertype == 0x0800) ≡ false = ground (arith, no_v4) in
          let b3 : (ethertype == 0x86dd) ≡ false = ground (arith, no_v6) in
          handed ∙ rw (b1, b2, b3) refl,
    )
