-- ===== src/Serial/Tests.antt =====
-- The theorem on the serial port, at 8 bits, even parity and one stop bit.
use linux_programs.Common.{ℕ, ◌≡◌, refl, arith, true, false, ◌||◌, some, ◌==◌}
use linux_programs.Serial.{Word, Masks, Termios, odd, even, set_uart_attr}
use linux_programs.Serial.Frame.{Distinct, eight, set_uart_attr-frame}

abbrev bit : ℕ → Word
bit k i = i == k

abbrev no_bits : Word
no_bits i = false

abbrev masks : Masks
masks = record {
  clocal = bit 6;
  cread = bit 7;
  opost = bit 0;
  lflags = bit 0;
  crtscts = bit 5;
  software = bit 0;
  csize = λ i. (i == 0) || (i == 1);
  cs5 = no_bits;
  cs6 = bit 0;
  cs7 = bit 1;
  cs8 = λ i. (i == 0) || (i == 1);
  parenb = bit 2;
  parodd = bit 3;
  inpck = bit 1;
  cstopb = bit 4;
}

masks-Distinct : Distinct masks
masks-Distinct = record {
  sizes = λ i out. (refl, ground arith, ground arith, out);
  size_bits = λ i on. (ground arith, ground arith, ground arith);
  odd_bits = λ i on. (ground arith, ground arith);
  parity_bits = λ i on. (ground arith, ground arith);
  flow_bits =
      λ i on. (ground arith, ground arith, ground arith, ground arith, ground arith, ground arith);
}

abbrev plain : Termios
plain = record {
  c_iflag = no_bits;
  c_oflag = no_bits;
  c_cflag = no_bits;
  c_lflag = no_bits;
  vtime = 0;
  vmin = 0;
}

abbrev same_speed : Termios → Termios
same_speed opt = opt

set_uart_attr-frame_example :
    (opt' : Termios) × (set_uart_attr masks same_speed (some plain) true 8 1 69 1
      ≡ (true, some opt'))
    × ((i : ℕ) → masks.csize i ≡ true → opt'.c_cflag i ≡ masks.cs8 i)
    × ((i : ℕ) → masks.cstopb i ≡ true → opt'.c_cflag i ≡ false)
    × ((i : ℕ) → masks.parenb i ≡ true → opt'.c_cflag i ≡ true)
    × ((i : ℕ)
        → masks.parodd i ≡ true
        → (even ≡ odd → opt'.c_cflag i ≡ true) × (even ≡ even → opt'.c_cflag i ≡ false))
    × ((i : ℕ) → masks.crtscts i ≡ true → opt'.c_cflag i ≡ false)
set_uart_attr-frame_example =
    set_uart_attr-frame masks same_speed plain true eight false false even 1 masks-Distinct
      (λ i on. refl)
