-- ===== src/Resilience/Registry/Key.antt =====
-- The key of a breaker in circuitbreaker.go, "type:provider:name".
use Prim.Native.Char.{Char}
use virtrigaud.Prelude.{◌≡◌, String}
use virtrigaud.Prelude.Cut.{FreeOf, cut_at}
use virtrigaud.Resilience.Registry.{key}

abbrev colon : Char
colon = ":"

-- No character of the text is a colon.
abbrev pub ColonFree : String → Type 0
ColonFree s = FreeOf colon s

-- Provider types and provider names without a colon, such as those of Kubernetes objects, give
-- distinct keys to distinct breakers, whatever the name's last part is.
pub key_injective :
    (provider_type provider name provider_type' provider' name' : String)
    → ColonFree provider_type
    → ColonFree provider
    → ColonFree provider_type'
    → ColonFree provider'
    → key provider_type provider name ≡ key provider_type' provider' name'
    → (provider_type ≡ provider_type') × (provider ≡ provider') × (name ≡ name')
unfolding key
key_injective pt p n pt' p' n' f g f' g' e =
    let (types, rest) = cut_at colon pt pt' _ _ f f' e in
    let (providers, names) = cut_at colon p p' n n' g g' rest in (types, providers, names)
