-- ===== src/Tracker/Client/Address/Printed.antt =====
-- An address that src/tracker/client.rs printed, read back.
use codecrafters_bittorrent.Prelude.{
  ℕ, zero, suc, ◌^◌, ◌-◌, ◌<◌, ◌≡◌, refl, ap, ◌∙◌, Bool, true, false, [], ◌∷◌, Option, none, some,
  ok, inl, inr, Bool-cases, if◌then◌else◌, All-append, arith, ◌==◌,
}
use codecrafters_bittorrent.Utils.Strings.{split}
use codecrafters_bittorrent.Utils.Strings.Clean.{Lacks, split-Lacks, split-append}
use codecrafters_bittorrent.Utils.Strings.Digits.{decimal-Lacks, decimal-Lacks_above}
use codecrafters_bittorrent.Bencode.Decimal.{
  decimal, digits_of, parse_digits, parse_unsigned-decimal,
}
use codecrafters_bittorrent.Tracker.Client.{Peer, Ipv4Addr}
use codecrafters_bittorrent.Tracker.Client.Address.{
  parse_octet, octets, parse_ip, of_parts, from_str, fmt_ip, fmt,
}

abbrev is_some_of : ℕ → Option ℕ → Bool
is_some_of n none = false
is_some_of n (some m) = m == n

eq_of_is_some_of : (n : ℕ) (o : Option ℕ) → is_some_of n o ≡ true → o ≡ some n
eq_of_is_some_of n none h = cc
eq_of_is_some_of n (some m) h = ap some (ground arith)

reads_back : ℕ → Bool
reads_back n = is_some_of n (parse_octet (decimal n))

-- The octets below a bound are read back.
octets_read : ℕ → Bool
octets_read zero = true
octets_read (suc bound) = if reads_back bound then octets_read bound else false

octets_read-reads_back :
    (bound octet : ℕ) → octet < bound → octets_read bound ≡ true → reads_back octet ≡ true
unfolding octets_read
octets_read-reads_back zero octet lt all = elim lt [ ]
octets_read-reads_back (suc bound) octet lt all = elim (Bool-cases (octet == bound)) [
  | inl last ↦ let e : octet ≡ bound = ground arith in rw e (ground arith)
  | inr earlier ↦ octets_read-reads_back bound octet (ground arith) (ground arith)
]

octet_table : octets_read 256 ≡ true
unfolding octets_read reads_back parse_octet decimal digits_of parse_digits
octet_table = refl

parse_octet-decimal : (n : ℕ) → n < 256 → parse_octet (decimal n) ≡ some n
parse_octet-decimal n h =
    eq_of_is_some_of n (parse_octet (decimal n))
      (unfold reads_back in octets_read-reads_back 256 n h octet_table)

-- Four octets, and a port of 16 bits.
pub record IsPeer (p : Peer) : Type 0 where
  pub octet_a : p.ip.a < 256
  pub octet_b : p.ip.b < 256
  pub octet_c : p.ip.c < 256
  pub octet_d : p.ip.d < 256
  pub port_fits : p.port < 2 ^ 16

fmt_ip-Lacks : (ip : Ipv4Addr) → Lacks 58 (fmt_ip ip)
unfolding fmt_ip
fmt_ip-Lacks ip =
    let digits = λ (n : ℕ). decimal-Lacks_above 58 n (omega arith) in
    All-append _ (decimal ip.a) _ (digits ip.a) (
      refl,
      All-append _ (decimal ip.b) _ (digits ip.b)
          (refl, All-append _ (decimal ip.c) _ (digits ip.c) (refl, digits ip.d)),
    )

split-fmt_ip :
    (ip : Ipv4Addr)
    → split 46 (fmt_ip ip) ≡ decimal ip.a ∷ decimal ip.b ∷ decimal ip.c ∷ decimal ip.d ∷ []
unfolding fmt_ip
split-fmt_ip ip =
    let digits = λ (n : ℕ). decimal-Lacks 46 n (omega arith) in
    split-append 46 (decimal ip.a) _ (digits ip.a)
    ∙ ap (λ l. decimal ip.a ∷ l)
        (split-append 46 (decimal ip.b) _ (digits ip.b)
          ∙ ap (λ l. decimal ip.b ∷ l)
              (split-append 46 (decimal ip.c) _ (digits ip.c)
                ∙ ap (λ l. decimal ip.c ∷ l) (split-Lacks 46 (decimal ip.d) (digits ip.d))))

parse_ip-fmt_ip : (p : Peer) → IsPeer p → parse_ip (fmt_ip p.ip) ≡ some p.ip
unfolding parse_ip
parse_ip-fmt_ip p h =
    let a = parse_octet-decimal p.ip.a h.octet_a in
    let b = parse_octet-decimal p.ip.b h.octet_b in
    let c = parse_octet-decimal p.ip.c h.octet_c in
    let d = parse_octet-decimal p.ip.d h.octet_d in
    ap octets (split-fmt_ip p.ip) ∙ rw (a, octets, b, c, d) refl

-- A peer whose numbers are in the ranges of their types is read back from its address.
pub from_str-fmt : (p : Peer) → IsPeer p → from_str (fmt p) ≡ ok p
unfolding from_str fmt
from_str-fmt p h =
    let parts =
      split-append 58 (fmt_ip p.ip) (decimal p.port) (fmt_ip-Lacks p.ip)
      ∙ ap (λ l. fmt_ip p.ip ∷ l)
          (split-Lacks 58 (decimal p.port) (decimal-Lacks_above 58 p.port (omega arith))) in
    let port = h.port_fits in
    let reads = parse_unsigned-decimal (2 ^ 16 - 1) p.port (omega arith) (omega arith) in
    ap of_parts parts ∙ rw (parse_ip-fmt_ip p h, reads) refl
