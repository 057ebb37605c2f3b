-- ===== src/Net/Util.antt =====
-- `Util`, src/net/util.cpp.
use qing.Common.{
  ℕ, ◌+◌, ◌-◌, ◌*◌, ◌/◌, ◌%◌, ◌^◌, Bool, Option, none, some, List, [], ◌∷◌, leb, ltb, ◌==◌, ◌&&◌,
  if◌then◌else◌, ℤ, pos, negsuc,
}

-- What the system answers `getNewSocket`: the descriptor (`none` for -1), and whether each of the
-- two calls of setsockopt succeeds.
pub record SocketCalls : Type 0 where
  pub socket : Option ℕ
  pub reuse_ok : Bool
  pub sndbuf_ok : Bool

-- `getNewSocket`: what it returns, and the descriptors that it leaves open.
unfoldable pub get_new_socket : SocketCalls → ℤ × List ℕ
get_new_socket c = elim c.socket [
  | none ↦ (negsuc 0, [])
  | some s ↦
      if c.reuse_ok
      then (if c.sndbuf_ok then (pos s, s ∷ []) else (negsuc 0, s ∷ []))
      else (negsuc 0, s ∷ [])
]

-- The answer of getaddrinfo: its code, and the addresses of the list behind `answer`.
unfoldable pub get_host_by_name : ℕ × List ℕ → ℕ
get_host_by_name (ret, answer) =
    if ret == 0 then elim answer [ [] ↦ 2 ^ 32 - 1 | address ∷ rest ↦ address ] else 2 ^ 32 - 1

-- A multiple of `unit`, a power of two, next to `n`; a tie goes to the even one.
unfoldable pub round_to : ℕ → ℕ → ℕ
round_to unit n =
    let q = n / unit in
    let r = n % unit in
    (if ltb (2 * r) unit then q else (if ltb unit (2 * r) then q + 1 else q + q % 2)) * unit

-- `static_cast<float>` of a uint32_t: 24 significant bits.
unfoldable pub to_float : ℕ → ℕ
to_float n =
    if ltb n (2 ^ 24)
    then n
    else (if ltb n (2 ^ 25)
        then round_to 2 n
        else (if ltb n (2 ^ 26)
            then round_to 4 n
            else (if ltb n (2 ^ 27)
                then round_to 8 n
                else (if ltb n (2 ^ 28)
                    then round_to 16 n
                    else (if ltb n (2 ^ 29)
                        then round_to 32 n
                        else (if ltb n (2 ^ 30)
                            then round_to 64 n
                            else (if ltb n (2 ^ 31) then round_to 128 n else round_to 256 n)))))))

pub data SizeUnit : Type 0 where
  terabytes gigabytes megabytes kilobytes plain_bytes : SizeUnit

-- The ladder of `cenvertBytesToSize`, on the float.
unfoldable pub size_unit : ℕ → SizeUnit
size_unit bytes =
    let tb : ℕ = 1099511627776 in
    let gb : ℕ = 1073741824 in
    let mb : ℕ = 1048576 in
    let kb : ℕ = 1024 in
    if leb tb bytes
    then terabytes
    else (if leb gb bytes && ltb bytes tb
        then gigabytes
        else (if leb mb bytes && ltb bytes gb
            then megabytes
            else (if leb kb bytes && ltb bytes mb then kilobytes else plain_bytes)))

-- `cenvertBytesToSize`: the float that is printed, as a number of bytes to be divided by the
-- unit's, and the unit. The text is snprintf's "%.2f" of their quotient and the unit's name.
unfoldable pub cenvert_bytes_to_size : ℕ → ℕ × SizeUnit
cenvert_bytes_to_size size = let bytes = to_float size in (bytes, size_unit bytes)
