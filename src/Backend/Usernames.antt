-- ===== src/Backend/Usernames.antt =====
-- internal/auth/usernames.go, and the pattern of usernames in internal/auth/service.go.
pub mod Valid
pub mod Pattern
use sample_grpc_service.Prelude.{
  ℕ, zero, suc, ◌+◌, String, Bool, true, false, ◌&&◌, ◌||◌, Option, none, some, List, [], ◌∷◌, leb,
  ◌==◌, if◌then◌else◌, get_elem?,
}
use sample_grpc_service.Decimal.{decimal}
use Prim.Native.Char.{Char, code}
use Prim.Native.String

unfoldable pub adjectives : List String
adjectives =
    "Amber" ∷ "Ancient" ∷ "Arctic" ∷ "Ashen" ∷ "Blazing" ∷ "Blighted" ∷ "Bold" ∷ "Brave" ∷ "Bronze"
    ∷ "Calm" ∷ "Clever" ∷ "Cloudy" ∷ "Cobalt" ∷ "Cosmic" ∷ "Crimson" ∷ "Crystal" ∷ "Dark" ∷ "Dawn"
    ∷ "Deft" ∷ "Dire" ∷ "Dusk" ∷ "Dusty" ∷ "Elder" ∷ "Ember" ∷ "Endless" ∷ "Fallen" ∷ "Fierce"
    ∷ "Feral" ∷ "Frosty" ∷ "Gilded" ∷ "Grim" ∷ "Hollow" ∷ "Honored" ∷ "Icy" ∷ "Infernal" ∷ "Jagged"
    ∷ "Jade" ∷ "Keen" ∷ "Lofty" ∷ "Lost" ∷ "Lunar" ∷ "Lurking" ∷ "Marbled" ∷ "Misty" ∷ "Molten"
    ∷ "Mystic" ∷ "Noble" ∷ "Nether" ∷ "Obsidian" ∷ "Ominous" ∷ "Pale" ∷ "Phantom" ∷ "Primal"
    ∷ "Rapid" ∷ "Raging" ∷ "Runed" ∷ "Scarlet" ∷ "Shadowed" ∷ "Silent" ∷ "Silver" ∷ "Sly" ∷ "Solar"
    ∷ "Spectral" ∷ "Stern" ∷ "Stony" ∷ "Stormy" ∷ "Swift" ∷ "Toxic" ∷ "Twilight" ∷ "Unyielding"
    ∷ "Veiled" ∷ "Vengeful" ∷ "Void" ∷ "Wicked" ∷ "Wild" ∷ "Withered" ∷ "Wrathful" ∷ []

unfoldable pub nouns : List String
nouns =
    "Adder" ∷ "Anvil" ∷ "Archer" ∷ "Asp" ∷ "Axe" ∷ "Basilisk" ∷ "Bear" ∷ "Blade" ∷ "Blaze" ∷ "Boar"
    ∷ "Bolt" ∷ "Bulwark" ∷ "Claw" ∷ "Cobra" ∷ "Condor" ∷ "Crag" ∷ "Drake" ∷ "Drifter" ∷ "Duelist"
    ∷ "Eagle" ∷ "Ember" ∷ "Falcon" ∷ "Fang" ∷ "Forge" ∷ "Fox" ∷ "Gale" ∷ "Gargoyle" ∷ "Ghost"
    ∷ "Golem" ∷ "Guardian" ∷ "Hawk" ∷ "Helm" ∷ "Hound" ∷ "Hunter" ∷ "Hydra" ∷ "Iron" ∷ "Jackal"
    ∷ "Knight" ∷ "Lance" ∷ "Lynx" ∷ "Mantle" ∷ "Marauder" ∷ "Monk" ∷ "Ogre" ∷ "Oracle" ∷ "Panther"
    ∷ "Pike" ∷ "Ranger" ∷ "Raven" ∷ "Reaver" ∷ "Rogue" ∷ "Sage" ∷ "Sentry" ∷ "Serpent" ∷ "Shade"
    ∷ "Shield" ∷ "Skull" ∷ "Slayer" ∷ "Specter" ∷ "Spike" ∷ "Spirit" ∷ "Stalker" ∷ "Storm"
    ∷ "Striker" ∷ "Tempest" ∷ "Thorn" ∷ "Tiger" ∷ "Titan" ∷ "Toad" ∷ "Tracker" ∷ "Troll" ∷ "Viper"
    ∷ "Void" ∷ "Warden" ∷ "Warlock" ∷ "Wasp" ∷ "Wolf" ∷ "Wyrm" ∷ []

abbrev joined : Option String → Option String → String → Option String
joined (some adj) (some noun) num = some (String.◌++◌ adj (String.◌++◌ noun num))
joined _ _ num = none

-- `GenerateUsername`, by the three numbers of `rand.IntN`; an index out of range would panic.
unfoldable pub generate_username : ℕ → ℕ → ℕ → Option String
unfolding adjectives nouns decimal
generate_username i j k = joined (get_elem? adjectives i) (get_elem? nouns j) (decimal (k + 10))

-- `[a-zA-Z0-9_]`
unfoldable pub is_word : Char → Bool
is_word c =
    (leb b'a' (code c) && leb (code c) b'z')
    || (leb b'A' (code c) && leb (code c) b'Z')
    || (leb b'0' (code c) && leb (code c) b'9')
    || code c == b'_'

unfoldable pub all_word : String → Bool
unfolding is_word
all_word String.[] = true
all_word (String.◌∷◌ c s) = is_word c && all_word s

unfoldable pub size : String → ℕ
size String.[] = 0
size (String.◌∷◌ c s) = suc (size s)

-- `^[a-zA-Z0-9_]{3,30}$`
unfoldable pub username_re : String → Bool
unfolding all_word size
username_re s = all_word s && leb 3 (size s) && leb (size s) 30
