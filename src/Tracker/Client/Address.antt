-- ===== src/Tracker/Client/Address.antt =====
-- `FromStr` and `Display` of `Peer` in src/tracker/client.rs, over those of the standard library's
-- `Ipv4Addr`: four numbers below 256 of at most three digits, with no zero in front.
pub mod Printed
use codecrafters_bittorrent.Prelude.{
  ℕ, zero, suc, ◌+◌, ◌-◌, ◌^◌, Bool, true, false, ◌&&◌, List, [], ◌∷◌, ◌++◌, length, get_elem?,
  Option, none, some, Result, ok, err, leb, ltb, ◌==◌, if◌then◌else◌,
}
use codecrafters_bittorrent.Utils.RawBytes.{Text}
use codecrafters_bittorrent.Utils.Strings.{split}
use codecrafters_bittorrent.Bencode.Decimal.{decimal, parse_unsigned, parse_digits}
use codecrafters_bittorrent.Tracker.Client.{Peer, Ipv4Addr}

-- `panicked` is the index of the port behind a text with no colon.
pub data AddrError : Type 0 where
  invalid_ip panicked : AddrError

-- A number of more than one digit does not begin with a zero.
unfoldable pub leading_zero : Text → Bool
leading_zero (c ∷ d ∷ s) = c == 48
leading_zero s = false

unfoldable pub parse_octet : Text → Option ℕ
unfolding leading_zero
parse_octet s =
    if leb (length s) 3 then (if leading_zero s then none else parse_digits 255 s) else none

abbrev pub octets : List Text → Option Ipv4Addr
octets (a ∷ b ∷ c ∷ d ∷ []) = elim (parse_octet a) [
  | none ↦ none
  | some a' ↦ elim (parse_octet b) [
    | none ↦ none
    | some b' ↦ elim (parse_octet c) [
      | none ↦ none
      | some c' ↦ elim (parse_octet d) [
        | none ↦ none
        | some d' ↦ some (record { a = a'; b = b'; c = c'; d = d' })
      ]
    ]
  ]
]
octets _ = none

unfoldable pub parse_ip : Text → Option Ipv4Addr
unfolding parse_octet split
parse_ip s = octets (split 46 s)

abbrev pub port_or_default : Option ℕ → ℕ
port_or_default none = 6881
port_or_default (some port) = port

abbrev pub with_port : Ipv4Addr → List Text → Result AddrError Peer
with_port ip [] = err panicked
with_port ip (port ∷ parts) =
    ok (record { ip = ip; port = port_or_default (parse_unsigned (2 ^ 16 - 1) port) })

abbrev pub with_ip : Option Ipv4Addr → List Text → Result AddrError Peer
with_ip none parts = err invalid_ip
with_ip (some ip) parts = with_port ip parts

-- `split` gives at least one part.
abbrev pub of_parts : List Text → Result AddrError Peer
of_parts [] = err panicked
of_parts (host ∷ parts) = with_ip (parse_ip host) parts

unfoldable pub from_str : Text → Result AddrError Peer
unfolding parse_ip split
from_str s = of_parts (split 58 s)

unfoldable pub fmt_ip : Ipv4Addr → Text
fmt_ip ip = decimal ip.a ++ (46 ∷ (decimal ip.b ++ (46 ∷ (decimal ip.c ++ (46 ∷ decimal ip.d)))))

unfoldable pub fmt : Peer → Text
unfolding fmt_ip
fmt p = fmt_ip p.ip ++ (58 ∷ decimal p.port)
