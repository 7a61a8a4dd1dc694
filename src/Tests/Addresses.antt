-- ===== src/Tests/Addresses.antt =====
-- The addresses of src/iw_ip.c.
use insta_works.Base.{◌≡◌, refl, true, none, some, [], ◌∷◌, ◌++◌, arith}
use insta_works.Base.Int.{pos}
use insta_works.Util.{
  util_strtoll, strtoll, skip_space, read_sign, read_prefix, read_digits, digit_value,
}
use insta_works.Ip.{Ip, Network, inet, str_to_addr}
use insta_works.Ip.Text.{IsDotted, Addresses, str_to_addr-dotted}
use insta_works.Ip.Ports.{IsKnown}

abbrev local : Ip
local = record { family = inet; port = 0; addr = 127 ∷ 0 ∷ 0 ∷ 1 ∷ [] }

abbrev net : Network
net = record {
  getaddrinfo = λ str. some (some local);
  inet_ntop = λ f a n. none;
  print_number = λ n. [];
}

reads_80 : util_strtoll (56 ∷ 48 ∷ []) 10 ≡ (true, pos 80)
unfolding util_strtoll strtoll skip_space read_sign read_prefix read_digits digit_value
reads_80 = refl

dotted : IsDotted (49 ∷ 46 ∷ 50 ∷ [])
unfolding IsDotted
dotted = (refl, (refl, (refl, tt)))

-- "1.2:80"
str_to_addr-dotted_example :
    Addresses 80
      (some (some local))
      (str_to_addr net (some ((49 ∷ 46 ∷ 50 ∷ []) ++ 58 ∷ 56 ∷ 48 ∷ [])) true)
str_to_addr-dotted_example =
    str_to_addr-dotted net (49 ∷ 46 ∷ 50 ∷ []) (56 ∷ 48 ∷ []) 80 (omega arith) reads_80
      (omega arith) dotted (omega arith) refl

known : IsKnown local
unfolding IsKnown
known = refl
