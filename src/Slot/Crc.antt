-- ===== src/Slot/Crc.antt =====
-- embed/src/key_composer/slot.rs, `crc16`: the table against the polynomial x^16 + x^12 + x^5 + 1.
use Prim.Native.Nat.{bit_xor}
use wedb_embed.Base.{
  ℕ, zero, suc, ◌+◌, ◌*◌, ◌/◌, ◌%◌, ◌^◌, ◌<◌, ◌≡◌, refl, sym, ap, ap₂, ◌∙◌, List, [], ◌∷◌, true,
  arith, ltb, ◌==◌, if◌then◌else◌, get_or,
}
use wedb_embed.Base.Bits.{all_below, all_below_sound, table_sound}
use wedb_embed.Base.Xor.{bit_xor-zero, bit_xor-lt, xor_upper}
use wedb_embed.Bytes.{IsBytes}
use wedb_embed.Slot.{crc16_tab, crc16_byte, crc16_from, crc16}

-- `n` shifts of a 16-bit register, each with a subtraction of the polynomial where a bit falls out.
pub shifts : ℕ → ℕ → ℕ
shifts zero r = r
shifts (suc n) r = shifts n (if ltb r 0x8000 then r * 2 else bit_xor (r * 2 % 2 ^ 16) 0x1021)

-- Each entry of the table is what eight shifts make of its index in the upper byte.
pub crc16_tab_entry : (i : ℕ) → i < 256 → get_or crc16_tab i 0 ≡ shifts 8 (i * 256)
unfolding crc16_tab shifts all_below
crc16_tab_entry = table_sound 256 (λ i. get_or crc16_tab i 0) (λ i. shifts 8 (i * 256)) refl

-- On a 16-bit register whose upper byte is `h` and lower byte `l`.
byte_table :
    all_below 256 (λ h. all_below 256 (λ l. crc16_byte (h * 256 + l) 0 == shifts 8 (h * 256 + l)))
    ≡ true
unfolding crc16_byte crc16_tab shifts all_below
byte_table = refl

byte_table_sound :
    (h l : ℕ) → h < 256 → l < 256 → crc16_byte (h * 256 + l) 0 ≡ shifts 8 (h * 256 + l)
byte_table_sound h l hh hl =
    table_sound 256 (λ l. crc16_byte (h * 256 + l) 0) (λ l. shifts 8 (h * 256 + l))
      (all_below_sound 256
        (λ h. all_below 256 (λ l. crc16_byte (h * 256 + l) 0 == shifts 8 (h * 256 + l))) h
        byte_table hh)
      l hl

byte_of_register : (r : ℕ) → r < 2 ^ 16 → crc16_byte r 0 ≡ shifts 8 r
byte_of_register r h = ground (arith, byte_table_sound (r / 256) (r % 256))

-- The sum looks up a byte that the register's upper byte absorbs, and keeps the lower byte.
crc16_byte_parts :
    (c b i l : ℕ)
    → bit_xor (c / 256 % 256) b ≡ i
    → c % 256 ≡ l
    → crc16_byte c b ≡ bit_xor (l * 256) (get_or crc16_tab i 0)
unfolding crc16_byte
crc16_byte_parts c b i l e f = ap₂ bit_xor (omega arith) (ap (λ (j : ℕ). get_or crc16_tab j 0) e)

-- One byte of the table-driven sum is the byte taken into the register and eight shifts.
pub crc16_byte-shifts :
    (crc b : ℕ) → crc < 2 ^ 16 → b < 256 → crc16_byte crc b ≡ shifts 8 (bit_xor crc (b * 2 ^ 8))
crc16_byte-shifts crc b hc hb =
    crc16_byte_parts crc b x l (ap (λ (h : ℕ). bit_xor h b) (omega arith)) refl
    ∙ sym (
        crc16_byte_parts reg 0 x l (bit_xor-zero (reg / 256 % 256) ∙ omega (arith, fields, bound))
          (omega (arith, fields)))
    ∙ byte_of_register reg (bit_xor-lt 16 crc (b * 2 ^ 8) hc (omega arith))
  where
    x : ℕ
    x = bit_xor (crc / 256) b

    l : ℕ
    l = crc % 256

    reg : ℕ
    reg = bit_xor crc (b * 2 ^ 8)

    bound : bit_xor (crc / 256) b < 256
    bound = bit_xor-lt 8 (crc / 256) b (omega arith) hb

    fields : bit_xor crc (b * 2 ^ 8) ≡ bit_xor (crc / 256) b * 2 ^ 8 + crc % 256
    fields =
        ap (λ (c : ℕ). bit_xor c (b * 2 ^ 8)) (omega arith)
        ∙ xor_upper 8 (crc / 256) (crc % 256) b (omega arith)

-- The checksum bit by bit: each byte is taken into the upper byte of the register, which is then
-- shifted eight times.
pub crc16_bitwise : ℕ → List ℕ → ℕ
crc16_bitwise r [] = r
crc16_bitwise r (b ∷ buf) = crc16_bitwise (shifts 8 (bit_xor r (b * 2 ^ 8))) buf

shift_lt : (n r : ℕ) → r < 2 ^ 16 → shifts n r < 2 ^ 16
unfolding shifts
shift_lt zero r h = h
shift_lt (suc n) r h =
    shift_lt n (if ltb r 0x8000 then r * 2 else bit_xor (r * 2 % 2 ^ 16) 0x1021)
      (ground (arith, bit_xor-lt 16 (r * 2 % 2 ^ 16) 0x1021))

crc16_from-bitwise :
    (buf : List ℕ) (r : ℕ)
    → IsBytes buf
    → r < 2 ^ 16
    → (crc16_from r buf ≡ crc16_bitwise r buf) × (crc16_from r buf < 2 ^ 16)
unfolding crc16_from crc16_bitwise
crc16_from-bitwise [] r h hr = (refl, hr)
crc16_from-bitwise (b ∷ buf) r (hb, h) hr =
    rw (crc16_byte-shifts r b hr hb)
      (crc16_from-bitwise buf _ h (shift_lt 8 _ (bit_xor-lt 16 r (b * 2 ^ 8) hr (omega arith))))

-- The table-driven checksum of a byte string is its CRC-16 bit by bit, and has 16 bits.
pub crc16-bitwise :
    (buf : List ℕ) → IsBytes buf → (crc16 buf ≡ crc16_bitwise 0 buf) × (crc16 buf < 2 ^ 16)
unfolding crc16
crc16-bitwise buf h = crc16_from-bitwise buf 0 h (omega arith)
