-- ===== src/EtherCtrl.antt =====
-- Lab3/etherCtrl.cpp: a menu that shows the addresses of one network interface. Standard input is
-- what the user types; the answers of ioctl are arguments, one for each round and request; what goes
-- to the screen is a list of effects.
mod Menu
mod Rounds
mod Texts
mod Name
mod Examples
use unx511_unix_systems_prog.Prelude.{
  ℕ, zero, suc, ◌+◌, ◌/◌, ◌%◌, Bool, true, false, Option, none, some, List, [], ◌∷◌, ◌++◌, ltb,
  ◌==◌, if◌then◌else◌, length,
}
use unx511_unix_systems_prog.Prelude.Int.{ℤ, pos, negsuc}
use unx511_unix_systems_prog.Prelude.Bytes.{codes, show_nat}
use unx511_unix_systems_prog.Prelude.Input.{Cin, read_int, read_word, ignore_line, get_char}

abbrev pub name_size : ℕ
name_size = 16

-- ARPHRD_ETHER.
abbrev pub ether : ℕ
ether = 1

-- SIOCGIFHWADDR, SIOCGIFADDR, SIOCGIFNETMASK, SIOCGIFBRDADDR.
pub data Request : Type 0 where
  hardware address net_mask broadcast : Request

-- What ioctl answers: an error with its text, or the address it put into `ifr`, sa_family and sa_data.
pub data Reply : Type 0 where
  refused : List ℕ → Reply
  filled : ℕ → (ℕ → ℕ) → Reply

pub data Effect : Type 0 where
  shows_menu clears asks_key closes : Effect
  says : List ℕ → Effect

pub hex_digit : ℕ → ℕ
hex_digit d = if ltb d 10 then 48 + d else 55 + d

-- "%02X" of a byte.
pub hex_byte : ℕ → List ℕ → List ℕ
unfolding hex_digit
hex_byte b rest = hex_digit (b / 16) ∷ hex_digit (b % 16) ∷ rest

-- "%02X:%02X:%02X:%02X:%02X:%02X" of the six bytes.
pub mac_text : (ℕ → ℕ) → List ℕ
unfolding hex_byte
mac_text mac = hex_byte (mac 0) (
    58
    ∷ hex_byte (mac 1) (
        58
        ∷ hex_byte (mac 2)
            (58 ∷ hex_byte (mac 3) (58 ∷ hex_byte (mac 4) (58 ∷ hex_byte (mac 5) [])))))

-- inet_ntoa of the address at sin_addr, behind the two bytes of the port.
pub inet_ntoa : (ℕ → ℕ) → List ℕ
inet_ntoa d =
    show_nat (d 2) ++ (46 ∷ show_nat (d 3) ++ (46 ∷ show_nat (d 4) ++ (46 ∷ show_nat (d 5))))

pub hardware_report : Reply → List ℕ
unfolding mac_text
hardware_report (refused text) = text
hardware_report (filled family d) =
    if family == ether
    then codes "MAC Address: " ++ (mac_text d ++ (10 ∷ []))
    else codes "Not an Ethernet interface" ++ (10 ∷ [])

pub address_report : List ℕ → Reply → List ℕ
unfolding inet_ntoa
address_report label (refused text) = text
address_report label (filled family d) = label ++ (inet_ntoa d ++ (10 ∷ []))

pub is_exit : ℤ → Bool
is_exit (pos n) = n == 0
is_exit (negsuc n) = false

case_of : (Request → Reply) → ℕ → List ℕ
unfolding hardware_report address_report
case_of ioctl n =
    if n == 0
    then codes "Exiting program." ++ (10 ∷ [])
    else (if n == 1
        then hardware_report (ioctl hardware)
        else (if n == 2
            then address_report (codes "IP Address: ") (ioctl address)
            else (if n == 3
                then address_report (codes "Network Mask: ") (ioctl net_mask)
                else (if n == 4
                    then address_report (codes "Broadcast Address: ") (ioctl broadcast)
                    else codes "Invalid selection!" ++ (10 ∷ [])))))

-- The switch: the text under each selection.
pub select : (Request → Reply) → ℤ → List ℕ
unfolding case_of
select ioctl (pos n) = case_of ioctl n
select ioctl (negsuc n) = codes "Invalid selection!" ++ (10 ∷ [])

-- The rest of the line and the next key are read.
pub wait_key : Cin → Cin
wait_key c = get_char (ignore_line c)

-- The do-while loop from round k on, with what `selection` holds; `none` means that the fuel ran out.
pub menu : ℕ → ℕ → (ℕ → Request → Reply) → ℤ → Cin → Option (List Effect)
unfolding select is_exit wait_key
menu zero k ioctl old c = none
menu (suc f) k ioctl old c =
    let (selection, c') = read_int old c in
    let again = menu f (suc k) ioctl selection (wait_key c') in
    if is_exit selection
    then some (shows_menu ∷ says (select (ioctl k) selection) ∷ [])
    else elim again [
      | none ↦ none
      | some es ↦ some (shows_menu ∷ says (select (ioctl k) selection) ∷ asks_key ∷ clears ∷ es)
    ]

-- The interface's name: `written` bytes go into `if_name`, the final zero included. It is copied with
-- its zero if it is shorter than ifr_name.
pub written : List ℕ → ℕ
written name = suc (length name)

pub copy_name : List ℕ → Option (List ℕ)
copy_name name = if ltb (length name) name_size then some (name ++ (0 ∷ [])) else none

-- Where main ends: with -1 and a text, or with 0 and what the menu did.
pub data Outcome : Type 0 where
  failed : List ℕ → Outcome
  exited : List Effect → Outcome

-- socket's answer: a descriptor, or the error's text.
start : Option (List ℕ) → Option (List Effect) → Option Outcome
start (some error) run = some (failed error)
start none none = none
start none (some es) = some (exited (clears ∷ es ++ (closes ∷ [])))

-- main; `junk` is what `selection` and `if_name` hold before they are read.
pub main : ℕ → (ℕ → Request → Reply) → Option (List ℕ) → ℤ → List ℕ → Cin → Option Outcome
unfolding start
main f ioctl error junk name_junk c =
    let (name, c') = read_word name_junk c in
    let run = menu f 0 ioctl junk c' in
    elim (copy_name name) [
      | none ↦ some (failed (codes "Interface name is too long!" ++ (10 ∷ [])))
      | some ifr_name ↦ start error run
    ]
