-- ===== src/Samples/CachedLinks.antt =====
-- A text for a cached set of links. Each character of an item stands behind an `x`, and two full
-- stops end the item.
use Prim.Native.Char.{Char, code}
use open_profile_be.Prelude.{
  List, Option, String, [], ap, if◌then◌else◌, nat_eq, none, refl, some, ◌∙◌, ◌∷◌, ◌≡◌,
}

abbrev written_item : String → String → String
written_item String.[] rest = String.◌∷◌ "." (String.◌∷◌ "." rest)
written_item (String.◌∷◌ c s) rest = String.◌∷◌ "x" (String.◌∷◌ c (written_item s rest))

abbrev written_items : List String → String
written_items [] = ""
written_items (s ∷ items) = written_item s (written_items items)

abbrev prefixed : Char → List String → List String
prefixed c [] = []
prefixed c (s ∷ items) = String.◌∷◌ c s ∷ items

abbrev read_items : String → List String
read_items String.[] = []
read_items (String.◌∷◌ mark String.[]) = []
read_items (String.◌∷◌ mark (String.◌∷◌ c s)) =
    let items = read_items s in if nat_eq (code mark) b'x' then prefixed c items else "" ∷ items

read_items-written_item : (s rest : String) → read_items (written_item s rest) ≡ s ∷ read_items rest
read_items-written_item String.[] rest = refl
read_items-written_item (String.◌∷◌ c s) rest = ap (prefixed c) (read_items-written_item s rest)

read_items-written_items : (items : List String) → read_items (written_items items) ≡ items
read_items-written_items [] = refl
read_items-written_items (s ∷ items) =
    read_items-written_item s (written_items items) ∙ ap (◌∷◌ s) (read_items-written_items items)

abbrev marked_profile : Option String → String
marked_profile none = ""
marked_profile (some id) = String.◌∷◌ "s" id

abbrev pub written_links : Option String → List String → String
written_links profile urls = written_items (marked_profile profile ∷ urls)

abbrev split_items : List String → Option (Option String × List String)
split_items [] = none
split_items (String.[] ∷ urls) = some (none, urls)
split_items (String.◌∷◌ c id ∷ urls) = some (some id, urls)

abbrev pub read_links : String → Option (Option String × List String)
read_links text = split_items (read_items text)

split_items-marked :
    (profile : Option String) (urls : List String)
    → split_items (marked_profile profile ∷ urls) ≡ some (profile, urls)
split_items-marked none urls = refl
split_items-marked (some id) urls = refl

pub read_links-written_links :
    (profile : Option String) (urls : List String)
    → read_links (written_links profile urls) ≡ some (profile, urls)
read_links-written_links profile urls =
    ap split_items (read_items-written_items (marked_profile profile ∷ urls))
    ∙ split_items-marked profile urls
