-- ===== src/Serial/Frame.antt =====
-- Which frame of bits `set_uart_attr` sets up, and that it leaves the hardware flow control as it was.
use linux_programs.Common.{
  ℕ, ◌≡◌, refl, ap, if◌then◌else◌, ◌∙◌, inl, inr, Bool, true, false, Bool-cases, not, ◌&&◌, ◌||◌,
  Option, none, some, ◌==◌,
}
use mathlib.Core.Path.{subst}
use linux_programs.Serial.{
  Word, ◌∪◌, ◌∖◌, Masks, Termios, set_flow, size_mask, set_data_bits, Parity, no_parity, odd, even,
  space, parity_of, with_parity, set_parity, two_stops, set_stop_bits, raw, set_uart_attr,
}

-- The masks name bits of their own, and the sizes lie within CSIZE.
pub record Distinct (m : Masks) : Type 0 where
  pub sizes :
      (i : ℕ)
      → m.csize i ≡ false
      → (m.cs5 i ≡ false) × (m.cs6 i ≡ false) × (m.cs7 i ≡ false) × (m.cs8 i ≡ false)
  pub size_bits :
      (i : ℕ)
      → m.csize i ≡ true
      → (m.parenb i ≡ false) × (m.parodd i ≡ false) × (m.cstopb i ≡ false)
  pub odd_bits : (i : ℕ) → m.parodd i ≡ true → (m.parenb i ≡ false) × (m.cstopb i ≡ false)
  pub parity_bits : (i : ℕ) → m.parenb i ≡ true → (m.parodd i ≡ false) × (m.cstopb i ≡ false)
  pub flow_bits :
      (i : ℕ)
      → m.crtscts i ≡ true
      → (m.clocal i ≡ false)
        × (m.cread i ≡ false)
        × (m.csize i ≡ false)
        × (m.parenb i ≡ false)
        × (m.parodd i ≡ false)
        × (m.cstopb i ≡ false)

or_off : (x b : Bool) → b ≡ false → (x || b) ≡ x
or_off true b off = refl
or_off false b off = off

or_on : (x b : Bool) → b ≡ true → (x || b) ≡ true
or_on true b on = refl
or_on false b on = on

clear_off : (x b : Bool) → b ≡ false → (x && not b) ≡ x
clear_off true b off = rw off refl
clear_off false b off = refl

clear_on : (x b : Bool) → b ≡ true → (x && not b) ≡ false
clear_on true b on = rw on refl
clear_on false b on = refl

-- A bit that is not in a mask, if there is one.
abbrev Outside : ℕ → Option Word → Type 0
Outside i none = Unit
Outside i (some mask) = mask i ≡ false

size_mask-Outside :
    (m : Masks) (n i : ℕ) → Distinct m → m.csize i ≡ false → Outside i (size_mask m n)
size_mask-Outside m n i d out =
    let (o5, o6, o7, o8) = d.sizes i out in
    elim (Bool-cases (n == 5)) [
      | inl five ↦ rw five o5
      | inr e5 ↦ elim (Bool-cases (n == 6)) [
        | inl six ↦ rw (e5, six) o6
        | inr e6 ↦ elim (Bool-cases (n == 7)) [
          | inl seven ↦ rw (e5, e6, seven) o7
          | inr e7 ↦ elim (Bool-cases (n == 8)) [
            | inl eight ↦ rw (e5, e6, e7, eight) o8
            | inr e8 ↦ rw (e5, e6, e7, e8) tt
          ]
        ]
      ]
    ]

-- Whether there is a parity bit.
abbrev pub checks : Parity → Bool
checks no_parity = false
checks odd = true
checks even = true
checks space = false

with_parity-off :
    (m : Masks) (p : Parity) (opt : Termios) (i : ℕ)
    → m.parenb i ≡ false
    → m.parodd i ≡ false
    → (with_parity m p opt).c_cflag i ≡ opt.c_cflag i
with_parity-off m no_parity opt i e o = clear_off (opt.c_cflag i) (m.parenb i) e
with_parity-off m odd opt i e o =
    or_off (opt.c_cflag i) (m.parodd i || m.parenb i) (or_off (m.parodd i) (m.parenb i) e ∙ o)
with_parity-off m even opt i e o =
    clear_off (opt.c_cflag i || m.parenb i) (m.parodd i) o ∙ or_off (opt.c_cflag i) (m.parenb i) e
with_parity-off m space opt i e o = clear_off (opt.c_cflag i) (m.parenb i) e

with_parity-on :
    (m : Masks) (p : Parity) (opt : Termios) (i : ℕ)
    → m.parenb i ≡ true
    → m.parodd i ≡ false
    → (with_parity m p opt).c_cflag i ≡ checks p
with_parity-on m no_parity opt i e o = clear_on (opt.c_cflag i) (m.parenb i) e
with_parity-on m odd opt i e o =
    or_on (opt.c_cflag i) (m.parodd i || m.parenb i) (or_on (m.parodd i) (m.parenb i) e)
with_parity-on m even opt i e o =
    clear_off (opt.c_cflag i || m.parenb i) (m.parodd i) o ∙ or_on (opt.c_cflag i) (m.parenb i) e
with_parity-on m space opt i e o = clear_on (opt.c_cflag i) (m.parenb i) e

with_parity-odd :
    (m : Masks) (p : Parity) (opt : Termios) (i : ℕ)
    → m.parodd i ≡ true
    → m.parenb i ≡ false
    → (p ≡ odd → (with_parity m p opt).c_cflag i ≡ true)
      × (p ≡ even → (with_parity m p opt).c_cflag i ≡ false)
with_parity-odd m no_parity opt i o e = (λ q. absurd (cc q), λ q. absurd (cc q))
with_parity-odd m odd opt i o e = (
  λ q. or_on (opt.c_cflag i) (m.parodd i || m.parenb i) (ap (λ b. b || m.parenb i) o),
  λ q. absurd (cc q),
)
with_parity-odd m even opt i o e =
    (λ q. absurd (cc q), λ q. clear_on (opt.c_cflag i || m.parenb i) (m.parodd i) o)
with_parity-odd m space opt i o e = (λ q. absurd (cc q), λ q. absurd (cc q))

-- The attributes after the last `switch`.
abbrev with_stops : Masks → Bool → Termios → Termios
with_stops m false opt = record opt { c_cflag = opt.c_cflag ∖ m.cstopb }
with_stops m true opt = record opt { c_cflag = opt.c_cflag ∪ m.cstopb }

with_stops-off :
    (m : Masks) (two : Bool) (opt : Termios) (i : ℕ)
    → m.cstopb i ≡ false
    → (with_stops m two opt).c_cflag i ≡ opt.c_cflag i
with_stops-off m false opt i off = clear_off (opt.c_cflag i) (m.cstopb i) off
with_stops-off m true opt i off = or_off (opt.c_cflag i) (m.cstopb i) off

with_stops-on :
    (m : Masks) (two : Bool) (opt : Termios) (i : ℕ)
    → m.cstopb i ≡ true
    → (with_stops m two opt).c_cflag i ≡ two
with_stops-on m false opt i on = clear_on (opt.c_cflag i) (m.cstopb i) on
with_stops-on m true opt i on = or_on (opt.c_cflag i) (m.cstopb i) on

set_stop_bits-with_stops :
    (m : Masks) (stop_bits : ℕ) (two : Bool) (opt : Termios)
    → two_stops stop_bits ≡ some two
    → set_stop_bits m stop_bits opt ≡ some (with_stops m two opt)
unfolding set_stop_bits
set_stop_bits-with_stops m stop_bits false opt e = rw (set_stop_bits, e) refl
set_stop_bits-with_stops m stop_bits true opt e = rw (set_stop_bits, e) refl

-- The attributes in front of the `switch` on `parity`.
abbrev sized : Masks → (Termios → Termios) → (flow_ctrl : ℕ) → Word → Termios → Termios
sized m set_speeds flow_ctrl cs opt =
    let flowing = set_flow m flow_ctrl (raw m (set_speeds opt)) in
    record flowing { c_cflag = flowing.c_cflag ∖ m.csize ∪ cs }

set_flow-c_cflag :
    (m : Masks) (flow_ctrl : ℕ) (opt : Termios) → (set_flow m flow_ctrl opt).c_cflag ≡ opt.c_cflag
unfolding set_flow
set_flow-c_cflag m flow_ctrl opt = elim (Bool-cases (flow_ctrl == 0)) [
  | inl none' ↦ rw (set_flow, none') refl
  | inr e0 ↦ elim (Bool-cases (flow_ctrl == 1)) [
    | inl hardware ↦ rw (set_flow, e0, hardware) refl
    | inr e1 ↦ elim (Bool-cases (flow_ctrl == 2)) [
      | inl software ↦ rw (set_flow, e0, e1, software) refl
      | inr e2 ↦ rw (set_flow, e0, e1, e2) refl
    ]
  ]
]

frame_lem :
    (m : Masks) (set_speeds : Termios → Termios) (opt : Termios) (set_ok : Bool)
    (data_bits stop_bits parity flow_ctrl : ℕ) (cs : Word) (two : Bool) (p : Parity)
    → Distinct m
    → size_mask m data_bits ≡ some cs
    → parity_of parity ≡ some p
    → two_stops stop_bits ≡ some two
    → (opt' : Termios) × (set_uart_attr m set_speeds
          (some opt)
          set_ok
          data_bits
          stop_bits
          parity
          flow_ctrl
        ≡ (set_ok, some opt'))
      × ((i : ℕ) → m.csize i ≡ true → opt'.c_cflag i ≡ cs i)
      × ((i : ℕ) → m.cstopb i ≡ true → opt'.c_cflag i ≡ two)
      × ((i : ℕ) → m.parenb i ≡ true → opt'.c_cflag i ≡ checks p)
      × ((i : ℕ)
          → m.parodd i ≡ true
          → (p ≡ odd → opt'.c_cflag i ≡ true) × (p ≡ even → opt'.c_cflag i ≡ false))
      × ((i : ℕ) → m.crtscts i ≡ true → opt'.c_cflag i ≡ (set_speeds opt).c_cflag i)
unfolding set_uart_attr set_data_bits set_parity
frame_lem m set_speeds opt set_ok data_bits stop_bits parity flow_ctrl cs two p d size check stop =
    let before = sized m set_speeds flow_ctrl cs opt in
    let checked = with_parity m p before in
    let base = set_flow-c_cflag m flow_ctrl (raw m (set_speeds opt)) in
    (
      record (with_stops m two checked) { vtime = 50; vmin = 255 },
      rw
          (
            set_uart_attr,
            set_data_bits,
            size,
            set_parity,
            check,
            set_stop_bits-with_stops m stop_bits two checked stop,
          )
          refl,
      λ i on.
          let (e, o, s) = d.size_bits i on in
          with_stops-off m two checked i s
          ∙ with_parity-off m p before i e o
          ∙ ap (λ b. b || cs i)
              (clear_on ((set_flow m flow_ctrl (raw m (set_speeds opt))).c_cflag i) (m.csize i) on),
      λ i on. with_stops-on m two checked i on,
      λ i on.
          let (o, s) = d.parity_bits i on in
          with_stops-off m two checked i s ∙ with_parity-on m p before i on o,
      λ i on.
          let (e, s) = d.odd_bits i on in
          let (is_odd, is_even) = with_parity-odd m p before i on e in
          (
            λ q. with_stops-off m two checked i s ∙ is_odd q,
            λ q. with_stops-off m two checked i s ∙ is_even q,
          ),
      λ i on.
          let (local, reading, c, e, o, s) = d.flow_bits i on in
          let speed = (set_speeds opt).c_cflag i in
          with_stops-off m two checked i s
          ∙ with_parity-off m p before i e o
          ∙ or_off _ (cs i) (subst (Outside i) size (size_mask-Outside m data_bits i d c))
          ∙ clear_off _ (m.csize i) c
          ∙ ap (λ (w : Word). w i) base
          ∙ or_off (speed || m.clocal i) (m.cread i) reading
          ∙ or_off speed (m.clocal i) local,
    )

-- The numbers of data bits that termios.h has masks for.
pub data Size : Type 0 where
  five six seven eight : Size

abbrev pub bits_of : Size → ℕ
bits_of five = 5
bits_of six = 6
bits_of seven = 7
bits_of eight = 8

abbrev pub mask_of : Masks → Size → Word
mask_of m five = m.cs5
mask_of m six = m.cs6
mask_of m seven = m.cs7
mask_of m eight = m.cs8

-- `N`, `O`, `E` and `S` of uart.h, or the small letter.
abbrev pub letter_of : Parity → (small : Bool) → ℕ
letter_of no_parity small = if small then 110 else 78
letter_of odd small = if small then 111 else 79
letter_of even small = if small then 101 else 69
letter_of space small = if small then 115 else 83

size_mask-bits_of : (m : Masks) (size : Size) → size_mask m (bits_of size) ≡ some (mask_of m size)
size_mask-bits_of m five = refl
size_mask-bits_of m six = refl
size_mask-bits_of m seven = refl
size_mask-bits_of m eight = refl

parity_of-letter_of : (p : Parity) (small : Bool) → parity_of (letter_of p small) ≡ some p
parity_of-letter_of no_parity true = refl
parity_of-letter_of no_parity false = refl
parity_of-letter_of odd true = refl
parity_of-letter_of odd false = refl
parity_of-letter_of even true = refl
parity_of-letter_of even false = refl
parity_of-letter_of space true = refl
parity_of-letter_of space false = refl

two_stops-count : (two : Bool) → two_stops (if two then 2 else 1) ≡ some two
two_stops-count true = refl
two_stops-count false = refl

-- For 5 to 8 data bits, 1 or 2 stop bits and each of the four letters, where `tcgetattr` succeeds and the
-- functions that set the speeds leave CRTSCTS alone, `set_uart_attr` sets the attributes and returns what
-- `tcsetattr` does. They have the mask of the number of data bits in CSIZE and two stop bits exactly when
-- these were asked for. The parity bit is on for `O` and `E`, with PARODD set for `O` and cleared for
-- `E`; it is off for `N`, and also for `S`. The bits of CRTSCTS in `c_cflag`, which switch the hardware
-- flow control, are as `tcgetattr` gave them, whatever `flowCtrl` is.
pub set_uart_attr-frame :
    (m : Masks) (set_speeds : Termios → Termios) (opt : Termios) (set_ok : Bool) (size : Size)
    (two small : Bool) (p : Parity) (flow_ctrl : ℕ)
    → Distinct m
    → ((i : ℕ) → m.crtscts i ≡ true → (set_speeds opt).c_cflag i ≡ opt.c_cflag i)
    → (opt' : Termios) × (set_uart_attr m set_speeds
          (some opt)
          set_ok
          (bits_of size)
          (if two then 2 else 1)
          (letter_of p small)
          flow_ctrl
        ≡ (set_ok, some opt'))
      × ((i : ℕ) → m.csize i ≡ true → opt'.c_cflag i ≡ mask_of m size i)
      × ((i : ℕ) → m.cstopb i ≡ true → opt'.c_cflag i ≡ two)
      × ((i : ℕ) → m.parenb i ≡ true → opt'.c_cflag i ≡ checks p)
      × ((i : ℕ)
          → m.parodd i ≡ true
          → (p ≡ odd → opt'.c_cflag i ≡ true) × (p ≡ even → opt'.c_cflag i ≡ false))
      × ((i : ℕ) → m.crtscts i ≡ true → opt'.c_cflag i ≡ opt.c_cflag i)
set_uart_attr-frame m set_speeds opt set_ok size two small p flow_ctrl d speeds =
    let (opt', run, sizes, stops, checked, odds, flow) =
      frame_lem m set_speeds opt set_ok (bits_of size) (if two then 2 else 1) (letter_of p small)
        flow_ctrl (mask_of m size) two p d (size_mask-bits_of m size) (parity_of-letter_of p small)
        (two_stops-count two) in
    (opt', run, sizes, stops, checked, odds, λ i on. flow i on ∙ speeds i on)
