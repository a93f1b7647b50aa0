-- ===== src/Profiles/Links.antt =====
-- What a link and a call to action must be: `validateLinkItems` and `validateCtaContent` of
-- ProfileService.
use open_profile_be.Entities.Content.{CtaSection, CtaType, LinkItem}
use open_profile_be.Exec.{Exception, http, throw_if}
use open_profile_be.Prelude.{
  Bool, List, Option, String, [], any, codes, false, if◌then◌else◌, is_between, is_some, keep, map,
  nat_eq, none, not, some, starts_with, true, truthy, ℕ, ◌&&◌, ◌*◌, ◌+◌, ◌-◌, ◌==◌, ◌||◌, ◌∷◌,
}
use open_profile_be.Profiles.Pages.{is_false}
use open_profile_be.Services.{Services, Url}
use open_profile_be.World.{App}

abbrev pub is_digit : ℕ → Bool
is_digit n = is_between 48 57 n

abbrev pub all_digits : List ℕ → Bool
all_digits [] = true
all_digits (c ∷ cs) = is_digit c && all_digits cs

-- `Number(part)` of a part of an address, which is not a number where it has another character.
abbrev pub number_from : ℕ → List ℕ → ℕ
number_from n [] = n
number_from n (c ∷ cs) = number_from (n * 10 + (c - 48)) cs

abbrev pub number_of : List ℕ → Option ℕ
number_of cs = if all_digits cs then some (number_from 0 cs) else none

-- `addr.split('.')`: the first part, and the rest of the parts.
abbrev pub split_dots : List ℕ → List ℕ × List (List ℕ)
split_dots [] = ([], [])
split_dots (c ∷ cs) =
    let rest = split_dots cs in if nat_eq c 46 then ([], rest.0 ∷ rest.1) else (c ∷ rest.0, rest.1)

abbrev pub second_part : List (List ℕ) → Option ℕ
second_part [] = none
second_part (p ∷ parts) = number_of p

abbrev pub is_number : ℕ → Option ℕ → Bool
is_number n none = false
is_number n (some m) = nat_eq m n

abbrev pub is_number_between : ℕ → ℕ → Option ℕ → Bool
is_number_between low high none = false
is_number_between low high (some m) = is_between low high m

-- `parts[0] === 172 && parts[1] >= 16 && parts[1] <= 31`
abbrev pub is_private_172 : List ℕ → Bool
is_private_172 cs =
    is_number 172 (number_of (split_dots cs).0)
    && is_number_between 16 31 (second_part (split_dots cs).1)

unfoldable pub is_private_ipv4 : List ℕ → Bool
is_private_ipv4 cs =
    starts_with (codes "127.") cs
    || starts_with (codes "10.") cs
    || starts_with (codes "192.168.") cs
    || starts_with (codes "169.254.") cs
    || is_private_172 cs

-- A letter of an ASCII text in lower case, as a test with the flag `i` compares it.
abbrev pub lowered : ℕ → ℕ
lowered n = if is_between 65 90 n then n + 32 else n

abbrev pub lowered_all : List ℕ → List ℕ
lowered_all cs = map lowered cs

abbrev pub is_hex : ℕ → Bool
is_hex n = is_digit n || is_between 97 102 n

-- `/^fc[0-9a-f]{2}:/i` and `/^fd[0-9a-f]{2}:/i`, on lower case.
abbrev pub is_unique_local : List ℕ → Bool
is_unique_local (f ∷ c ∷ a ∷ b ∷ colon ∷ cs) =
    nat_eq f 102 && (nat_eq c 99 || nat_eq c 100) && is_hex a && is_hex b && nat_eq colon 58
is_unique_local _ = false

abbrev pub same_codes : List ℕ → List ℕ → Bool
same_codes [] [] = true
same_codes (c ∷ cs) (d ∷ ds) = nat_eq c d && same_codes cs ds
same_codes _ _ = false

unfoldable pub is_private_ipv6 : List ℕ → Bool
is_private_ipv6 cs =
    same_codes cs (codes "::1")
    || starts_with (codes "fe80:") (lowered_all cs)
    || is_unique_local (lowered_all cs)

abbrev pub without : List ℕ → List ℕ → Option (List ℕ)
without [] cs = some cs
without (p ∷ prefix) [] = none
without (p ∷ prefix) (c ∷ cs) = if nat_eq p (lowered c) then without prefix cs else none

-- `\d+\.\d+\.\d+\.\d+`: four parts, each of at least one digit.
abbrev pub is_number_part : List ℕ → Bool
is_number_part [] = false
is_number_part (c ∷ cs) = is_digit c && all_digits cs

abbrev pub is_dotted_quad : List ℕ × List (List ℕ) → Bool
is_dotted_quad (a, b ∷ c ∷ d ∷ []) =
    is_number_part a && is_number_part b && is_number_part c && is_number_part d
is_dotted_quad _ = false

-- `addr.match(/^::ffff:(\d+\.\d+\.\d+\.\d+)$/i)`, and whether the address in it is private.
abbrev pub is_private_mapped : Option (List ℕ) → Bool
is_private_mapped none = false
is_private_mapped (some cs) = is_dotted_quad (split_dots cs) && is_private_ipv4 cs

unfoldable pub is_private_address : List ℕ → Bool
unfolding is_private_ipv4 is_private_ipv6
is_private_address cs =
    is_private_mapped (without (codes "::ffff:") cs) || is_private_ipv6 cs || is_private_ipv4 cs

abbrev pub is_web_protocol : String → Bool
is_web_protocol protocol = protocol == "http:" || protocol == "https:"

-- What one link fails by.
pub data LinkFailure : Type 0 where
  unsupported_protocol invalid_url private_network : LinkFailure

abbrev pub invalid_links : Exception
invalid_links = http 422 "INVALID_LINKS"

abbrev pub invalid_cta : Exception
invalid_cta = http 422 "INVALID_CTA"

abbrev pub is_visible_link : LinkItem → Bool
is_visible_link i = i.visible

-- `\s`
abbrev pub is_space : ℕ → Bool
is_space n =
    is_between 9 13 n
    || nat_eq n 32
    || nat_eq n 160
    || nat_eq n 5760
    || is_between 8192 8202 n
    || is_between 8232 8233 n
    || nat_eq n 8239
    || nat_eq n 8287
    || nat_eq n 12288
    || nat_eq n 65279

-- `[^\s@]+$`
abbrev pub all_plain : List ℕ → Bool
all_plain [] = true
all_plain (c ∷ cs) = not (is_space c) && not (nat_eq c 64) && all_plain cs

abbrev pub is_nonempty : List ℕ → Bool
is_nonempty [] = false
is_nonempty (c ∷ cs) = true

-- `[^\s@]+\.[^\s@]+$` after at least one character.
abbrev pub has_dot_later : List ℕ → Bool
has_dot_later [] = false
has_dot_later (c ∷ cs) = (nat_eq c 46 && is_nonempty cs) || has_dot_later cs

abbrev pub is_domain : List ℕ → Bool
is_domain [] = false
is_domain (c ∷ cs) = all_plain (c ∷ cs) && has_dot_later cs

abbrev pub has_domain_after_at : List ℕ → Bool
has_domain_after_at [] = false
has_domain_after_at (c ∷ cs) =
    let rest = has_domain_after_at cs in
    if nat_eq c 64 then is_domain cs else not (is_space c) && rest

-- `/^[^\s@]+@[^\s@]+\.[^\s@]+$/`
unfoldable pub is_email_text : List ℕ → Bool
is_email_text [] = false
is_email_text (c ∷ cs) = not (is_space c) && not (nat_eq c 64) && has_domain_after_at cs

module _ (x : Services) where
  abbrev pub check_address : Option String → Option LinkFailure
  check_address none = some invalid_url
  check_address (some address) =
      if address == ""
      then some invalid_url
      else if is_private_address (codes address)
      then some private_network
      else none

  abbrev pub check_url : Option Url → Option LinkFailure
  check_url none = some invalid_url
  check_url (some u) =
      if is_web_protocol u.protocol
      then check_address (x.web.lookup_address u.hostname)
      else some unsupported_protocol

  -- What `validateLinkItems` finds of one visible item.
  unfoldable pub link_failure : LinkItem → Option LinkFailure
  unfolding is_private_address
  link_failure item = check_url (x.web.parse_url item.url)

  unfoldable pub has_failures : List LinkItem → Bool
  unfolding link_failure
  has_failures items = any (λ i. is_some (link_failure i)) (keep is_visible_link items)

  unfoldable pub validate_link_items : List LinkItem → App x (Unit {0})
  unfolding has_failures
  validate_link_items items = throw_if (has_failures items) invalid_links

  abbrev pub is_missing_text : Option String → Bool
  is_missing_text o = not (is_some (truthy o))

  abbrev pub bad_email : Option String → Bool
  bad_email none = true
  bad_email (some s) = not (is_email_text (codes (x.env.trim s)))

  abbrev pub bad_phone : Option String → Bool
  bad_phone none = true
  bad_phone (some s) = not (s == x.env.trim s) || not (x.web.is_valid_phone_number s)

  abbrev pub bad_link_url : Option Url → Bool
  bad_link_url none = true
  bad_link_url (some u) = not (is_web_protocol u.protocol)

  abbrev pub bad_link : Option String → Bool
  bad_link none = false
  bad_link (some s) = bad_link_url (x.web.parse_url s)

  abbrev pub bad_value : Option CtaType → Option String → Bool
  bad_value (some CtaType.cta_email) v = bad_email v
  bad_value (some CtaType.phone) v = bad_phone v
  bad_value (some CtaType.whatsapp) v = bad_phone v
  bad_value _ v = bad_link v

  -- Whether `validateCtaContent` throws.
  unfoldable pub has_bad_cta : CtaSection → Bool
  unfolding is_email_text
  has_bad_cta c = not (is_false c.visible) && bad_value c.cta_type (truthy c.value)

  unfoldable pub validate_cta_content : CtaSection → App x (Unit {0})
  unfolding has_bad_cta
  validate_cta_content c = throw_if (has_bad_cta c) invalid_cta
