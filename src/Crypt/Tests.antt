-- ===== src/Crypt/Tests.antt =====
-- The theorems on encryption at concrete files and keys.
use ed.Common.{
  has_newline, ℕ, suc, map, ◌/◌, ◌==◌, ◌+◌, ◌-◌, ◌%◌, ◌<◌, ◌≡◌, refl, ap, Bool, true, false, none,
  some, List, [], ◌∷◌, ◌&&◌, arith, length, ltb, leb, if◌then◌else◌,
}
use ed.Common.Int.{pos}
use ed.Crypt.{
  Cipher, Des, init_des_cipher, xor_block, get_des_char, cbc_decode, incomplete_block, put_des_char,
  flush_des_file, write_full, cbc_encode, last_block, next_char,
}
use ed.Crypt.Xor.{AreBytes}
use ed.Crypt.Written.{IsCipher, write_all}
use ed.Crypt.Restored.{read_all}
use ed.Crypt.RoundTrip.{read_all-write_all, length-write_all}
use ed.Crypt.Lines.{
  StreamLine, line, unexpected_eof, out_of_fuel, get_stream_line, line_loop, end_line, read_char,
}
use ed.Crypt.Lost.{LosesLines, get_stream_line-lost}
use ed.Crypt.Key.{KeyEnv, Key, get_des_keyword}
use ed.Common.Bits.{all_below, all_below_sound}
use ed.Crypt.Parity.{odd_low, ones, LowParity, LowParities}
use ed.Crypt.HexKey.{hex_digits, get_des_keyword-hex}

-- A cipher that inverts each bit.
invert : List ℕ → List ℕ
invert [] = []
invert (b ∷ bs) = (255 - b) ∷ invert bs

length-invert : (bs : List ℕ) → length (invert bs) ≡ length bs
unfolding invert
length-invert [] = refl
length-invert (b ∷ bs) = ap suc (length-invert bs)

invert-AreBytes : (bs : List ℕ) → AreBytes (invert bs)
unfolding invert
invert-AreBytes [] = tt
invert-AreBytes (b ∷ bs) = (omega arith, invert-AreBytes bs)

invert-invert : (bs : List ℕ) → AreBytes bs → invert (invert bs) ≡ bs
unfolding invert
invert-invert [] h = refl
invert-invert (b ∷ bs) (h, hs) =
    let e : 255 - (255 - b) ≡ b = omega arith in rw (e, invert-invert bs hs) refl

abbrev inverting : Cipher
inverting = record { encrypt = invert; decrypt = invert }

inverting-IsCipher : IsCipher inverting
inverting-IsCipher = record {
  encrypt-IsBlock = λ b h. (omega (arith, length-invert b, h.0), invert-AreBytes b);
  decrypt-encrypt = λ b h. invert-invert b h.1;
}

abbrev padding : List ℕ
padding = 9 ∷ 8 ∷ 7 ∷ 6 ∷ 5 ∷ 4 ∷ 3 ∷ 2 ∷ []

-- The static variables as the program starts.
abbrev at_start : Des
at_start = record {
  ivec = [];
  pvec = [];
  des_buf = 0 ∷ 0 ∷ 0 ∷ 0 ∷ 0 ∷ 0 ∷ 0 ∷ 0 ∷ [];
  des_ct = pos 0;
  des_n = 0;
  err = none;
}

-- "hello world\n"
abbrev greeting : List ℕ
greeting = b'h' ∷ b'e' ∷ b'l' ∷ b'l' ∷ b'o' ∷ b' ' ∷ b'w' ∷ b'o' ∷ b'r' ∷ b'l' ∷ b'd' ∷ 10 ∷ []

read_all-write_all_example :
    read_all inverting 13
      (write_all inverting greeting (init_des_cipher padding at_start))
      (init_des_cipher [] at_start)
    ≡ greeting
read_all-write_all_example =
    read_all-write_all inverting inverting-IsCipher padding at_start (refl, omega arith)
      (refl, omega arith) greeting [] at_start (omega arith)

length-write_all_example :
    length (write_all inverting greeting (init_des_cipher padding at_start)) ≡ 16
length-write_all_example =
    length-write_all inverting inverting-IsCipher padding at_start (refl, omega arith)
      (refl, omega arith) b'h' _ (omega arith)

-- A file of seven bytes is refused.
incomplete_file :
    (get_des_char inverting
      (1 ∷ 2 ∷ 3 ∷ 4 ∷ 5 ∷ 6 ∷ 7 ∷ [])
      (init_des_cipher padding at_start)).1.err
    ≡ some incomplete_block
unfolding get_des_char cbc_decode init_des_cipher invert xor_block
incomplete_file = refl

-- The digits of hexadecimal numbers.
digit : ℕ → ℕ
digit d = if ltb d 10 then b'0' + d else b'a' + (d - 10)

strtol : ℕ → ℕ → ℕ × Bool
strtol c radix =
    if leb b'0' c && leb c b'9'
    then (c - b'0', false)
    else if leb b'a' c && leb c b'f'
    then (c - b'a' + 10, false)
    else (0, true)

strtol-digit : (d : ℕ) → d < 16 → strtol (digit d) 16 ≡ (d, false)
unfolding strtol digit
strtol-digit d h = ground arith

abbrev env : KeyEnv (List ℕ)
env = record { strtol = strtol; set_odd_parity = map odd_low; schedule = λ key. key }

-- The characters with the parity of `DES_set_odd_parity`, by a table.
abbrev low_test : ℕ → Bool
low_test b = (odd_low b / 256 == 0) && (odd_low b / 2 == b / 2) && (ones (odd_low b) % 2 == 1)

low_table : all_below 256 low_test ≡ true
unfolding all_below
low_table = refl

three_tests :
    (c h : ℕ)
    → ((c / 256 == 0) && (c / 2 == h) && (ones c % 2 == 1)) ≡ true
    → (c / 256 ≡ 0) × (c / 2 ≡ h) × (ones c % 2 ≡ 1)
three_tests c h t = ground (arith, t)

odd_low-LowParity : (b : ℕ) → b < 256 → LowParity b (odd_low b)
odd_low-LowParity b h =
    let t : low_test b ≡ true = all_below_sound 256 low_test b low_table h in
    let (x, y, z) = three_tests (odd_low b) (b / 2) t in (omega arith, y, z)

map-LowParities : (bs : List ℕ) → AreBytes bs → LowParities bs (map odd_low bs)
map-LowParities [] h = tt
map-LowParities (b ∷ bs) (h, hs) = (odd_low-LowParity b h, map-LowParities bs hs)

abbrev no_key : Key (List ℕ)
no_key = record { expanded = []; pflag = false; have_key = false }

get_des_keyword-hex_example :
    get_des_keyword env (some (b'0' ∷ b'x' ∷ hex_digits digit padding)) greeting no_key
    ≡ (true, record { expanded = map odd_low padding; pflag = true; have_key = true })
get_des_keyword-hex_example =
    get_des_keyword-hex env digit padding greeting no_key strtol-digit map-LowParities
      (refl, omega arith)

-- "a", an empty line, and "b".
abbrev three_lines : List ℕ
three_lines = b'a' ∷ 10 ∷ 10 ∷ b'b' ∷ 10 ∷ []

rest_of : StreamLine → List ℕ × Bool
rest_of (line text missing st) = (text, st.eof)
rest_of (unexpected_eof st) = ([], st.eof)
rest_of out_of_fuel = ([], false)

behind : StreamLine → StreamLine
behind (line text missing st) = get_stream_line 6 inverting st
behind (unexpected_eof st) = unexpected_eof st
behind out_of_fuel = out_of_fuel

-- Of the file that was written the second line is not read.
second_line :
    rest_of (
      behind (
        get_stream_line 6 inverting (record {
          fp = write_all inverting three_lines (init_des_cipher padding at_start);
          des = init_des_cipher padding at_start;
          eof = false;
          input_is_binary = false;
        })))
    ≡ ([], true)
unfolding rest_of behind line_loop end_line read_char write_all put_des_char flush_des_file
    write_full cbc_encode last_block get_des_char cbc_decode next_char init_des_cipher invert
    xor_block
second_line = refl

get_stream_line-lost_example : LosesLines inverting 2 (b'a' ∷ []) (b'b' ∷ 10 ∷ []) (record {
  fp = write_all inverting three_lines (init_des_cipher padding at_start);
  des = init_des_cipher padding at_start;
  eof = false;
  input_is_binary = false;
})
unfolding has_newline
get_stream_line-lost_example =
    get_stream_line-lost inverting inverting-IsCipher padding padding at_start at_start
      (refl, omega arith) (refl, omega arith) (b'a' ∷ []) (b'b' ∷ 10 ∷ []) 2 false (omega arith)
      (omega arith) refl (omega arith) (omega arith)
