-- ===== src/Serial.antt =====
-- serialPortapi/uart.c: `set_uart_attr` as a function on the fields of `struct termios`.
-- A word of flags is the function that gives its bits. The constants and functions of termios.h are
-- arguments.
pub mod Frame
mod Tests
use linux_programs.Common.{
  ℕ, Bool, true, false, not, ◌&&◌, ◌||◌, Option, none, some, ◌==◌, if◌then◌else◌,
}

abbrev pub Word : Type 0
Word = ℕ → Bool

infixl 6 ◌∪◌
infixl 6 ◌∖◌
-- `a |= b`
abbrev pub ◌∪◌ : Word → Word → Word
(a ∪ b) i = a i || b i

-- `a &= ~b`
abbrev pub ◌∖◌ : Word → Word → Word
(a ∖ b) i = a i && not (b i)

-- The masks of termios.h. `lflags` is ECHO | ICANON | ECHOE | ISIG, `software` is IXON | IXOFF | IXANY.
pub record Masks : Type 0 where
  pub clocal : Word
  pub cread : Word
  pub opost : Word
  pub lflags : Word
  pub crtscts : Word
  pub software : Word
  pub csize : Word
  pub cs5 : Word
  pub cs6 : Word
  pub cs7 : Word
  pub cs8 : Word
  pub parenb : Word
  pub parodd : Word
  pub inpck : Word
  pub cstopb : Word

-- `struct termios`, without the speeds, which `cfsetispeed` and `cfsetospeed` alone deal with.
pub record Termios : Type 0 where
  pub c_iflag : Word
  pub c_oflag : Word
  pub c_cflag : Word
  pub c_lflag : Word
  pub vtime : ℕ
  pub vmin : ℕ

-- The `switch` on `flowCtrl`: the input flags.
pub set_flow : Masks → (flow_ctrl : ℕ) → Termios → Termios
set_flow m flow_ctrl opt =
    if flow_ctrl == 0
    then record opt { c_iflag = opt.c_iflag ∖ m.crtscts }
    else (if flow_ctrl == 1
        then record opt { c_iflag = opt.c_iflag ∪ m.crtscts }
        else (if flow_ctrl == 2 then record opt { c_iflag = opt.c_iflag ∪ m.software } else opt))

-- The mask that the `switch` on `dataBits` chooses.
abbrev pub size_mask : Masks → (data_bits : ℕ) → Option Word
size_mask m data_bits =
    if data_bits == 5
    then some m.cs5
    else (if data_bits == 6
        then some m.cs6
        else (if data_bits == 7 then some m.cs7 else (if data_bits == 8 then some m.cs8 else none)))

pub set_data_bits : Masks → (data_bits : ℕ) → Termios → Option Termios
set_data_bits m data_bits opt = elim (size_mask m data_bits) [
  | none ↦ none
  | some cs ↦ some (record opt { c_cflag = opt.c_cflag ∪ cs })
]

-- The labels of the `switch` on `parity`, each in two letters.
pub data Parity : Type 0 where
  no_parity odd even space : Parity

abbrev pub parity_of : (letter : ℕ) → Option Parity
parity_of letter =
    if letter == 110 || letter == 78
    then some no_parity
    else (if letter == 111 || letter == 79
        then some odd
        else (if letter == 101 || letter == 69
            then some even
            else (if letter == 115 || letter == 83 then some space else none)))

abbrev pub with_parity : Masks → Parity → Termios → Termios
with_parity m no_parity opt = record opt {
  c_cflag = opt.c_cflag ∖ m.parenb;
  c_iflag = opt.c_iflag ∖ m.inpck;
}
with_parity m odd opt = record opt {
  c_cflag = opt.c_cflag ∪ (m.parodd ∪ m.parenb);
  c_iflag = opt.c_iflag ∪ m.inpck;
}
with_parity m even opt = record opt {
  c_cflag = opt.c_cflag ∪ m.parenb ∖ m.parodd;
  c_iflag = opt.c_iflag ∪ m.inpck;
}
with_parity m space opt = record opt { c_cflag = opt.c_cflag ∖ m.parenb }

pub set_parity : Masks → (letter : ℕ) → Termios → Option Termios
set_parity m letter opt = elim (parity_of letter) [
  | none ↦ none
  | some parity ↦ some (with_parity m parity opt)
]

-- Whether the `switch` on `stopBits` sets the flag.
abbrev pub two_stops : (stop_bits : ℕ) → Option Bool
two_stops stop_bits =
    if stop_bits == 1 then some false else (if stop_bits == 2 then some true else none)

pub set_stop_bits : Masks → (stop_bits : ℕ) → Termios → Option Termios
set_stop_bits m stop_bits opt = elim (two_stops stop_bits) [
  | none ↦ none
  | some false ↦ some (record opt { c_cflag = opt.c_cflag ∖ m.cstopb })
  | some true ↦ some (record opt { c_cflag = opt.c_cflag ∪ m.cstopb })
]

-- The attributes up to the `switch` on `flowCtrl`.
abbrev pub raw : Masks → Termios → Termios
raw m opt = record opt {
  c_cflag = opt.c_cflag ∪ m.clocal ∪ m.cread;
  c_oflag = opt.c_oflag ∖ m.opost;
  c_lflag = opt.c_lflag ∖ m.lflags;
}

-- `set_uart_attr`: what `tcgetattr` gives, `none` when it fails, and whether `tcsetattr` succeeds, are
-- arguments, like the function that sets the speeds. The result is whether 0 is returned, and what
-- `tcsetattr` is called with. A negative number of bits is as unsupported as 0.
pub set_uart_attr :
    (m : Masks)
    → (set_speeds : Termios → Termios) → (attr : Option Termios) → (set_ok : Bool)
    → (data_bits stop_bits parity flow_ctrl : ℕ) → Bool × Option Termios
unfolding set_flow set_data_bits set_parity set_stop_bits
set_uart_attr m set_speeds none set_ok data_bits stop_bits parity flow_ctrl = (false, none)
set_uart_attr m set_speeds (some opt) set_ok data_bits stop_bits parity flow_ctrl =
    let flowing = set_flow m flow_ctrl (raw m (set_speeds opt)) in
    elim (set_data_bits m data_bits (record flowing { c_cflag = flowing.c_cflag ∖ m.csize })) [
      | none ↦ (false, none)
      | some sized ↦ elim (set_parity m parity sized) [
        | none ↦ (false, none)
        | some checked ↦ elim (set_stop_bits m stop_bits checked) [
          | none ↦ (false, none)
          | some stopped ↦ (set_ok, some (record stopped { vtime = 50; vmin = 255 }))
        ]
      ]
    ]
