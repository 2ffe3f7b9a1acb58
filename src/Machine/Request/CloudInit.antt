-- ===== src/Machine/Request/CloudInit.antt =====
-- internal/controller/cloudinit.go: the user data and the metadata of cloud-init, inline or from a Secret.
-- A Secret's data is its map; `fetch` answers the Get of the Secret of a name.
use virtrigaud.Prelude.{
  String, Option, none, some, List, [], ◌∷◌, str_eq, sprintf, if◌then◌else◌, ◌++◌,
}
use virtrigaud.Prelude.Dict.{Dict, lookup}
use virtrigaud.Migration.Types.{Answer, returned, refused}
use virtrigaud.Machine.Types.{CloudInit}

-- The first of the accepted keys that the Secret holds
unfoldable pub first_key : List String → Dict String → Option String
first_key [] secret = none
first_key (k ∷ ks) secret = elim (lookup k secret) [
  | some text ↦ some text
  | none ↦ first_key ks secret
]

abbrev pub user_data_keys : List String
user_data_keys = "userdata" ∷ "user-data" ∷ "cloud-init" ∷ "cloud-config" ∷ []

abbrev pub meta_data_keys : List String
meta_data_keys = "metadata" ∷ "meta-data" ∷ "meta_data" ∷ []

spaced : List String → List String
spaced [] = []
spaced (k ∷ []) = k ∷ []
spaced (k ∷ ks) = k ∷ " " ∷ spaced ks

-- extractCloudInitFromSecret and extractMetaDataFromSecret, by the noun of the error
unfoldable pub extract : String → List String → String → Dict String → Answer String
unfolding first_key spaced
extract noun keys secret_name secret = elim (first_key keys secret) [
  | some text ↦ returned text
  | none ↦ refused (
      sprintf (
        "secret \""
        ∷ secret_name
        ∷ "\" contains no recognised "
        ∷ noun
        ∷ " key; accepted keys: ["
        ∷ (spaced keys ++ "]" ∷ [])))
]

abbrev boundary : String
boundary = "VIRTRIGAUD_CLOUD_INIT_BOUNDARY"

part_text : String → List String
part_text part =
    "\n--" ∷ boundary ∷ "\nContent-Type: text/cloud-config; charset=\"utf-8\"\n\n" ∷ part ∷ "\n"
    ∷ []

parts_text : List String → List String
unfolding part_text
parts_text [] = "\n--" ∷ boundary ∷ "--\n" ∷ []
parts_text (p ∷ ps) = part_text p ++ parts_text ps

-- mergeCloudConfigParts
unfoldable pub merge_parts : List String → String
unfolding parts_text
merge_parts parts = sprintf (
    "Content-Type: multipart/mixed; boundary=\""
    ∷ boundary
    ∷ "\"\nMIME-Version: 1.0\n"
    ∷ parts_text parts)

-- The inline text, unless it is empty, and after it what the Secret holds
unfoldable pub parts_of :
    String → List String → (String → Answer (Dict String)) → CloudInit → Answer (List String)
unfolding extract
parts_of noun keys fetch c =
    let inline_parts : List String = if str_eq c.inline "" then [] else c.inline ∷ [] in
    elim c.secret_ref [
      | none ↦ returned inline_parts
      | some secret_name ↦ elim (fetch secret_name) [
        | refused err ↦
            refused (sprintf ("fetching " ∷ noun ∷ " secret \"" ∷ secret_name ∷ "\": " ∷ err ∷ []))
        | returned secret ↦ elim (extract noun keys secret_name secret) [
          | refused err ↦ refused err
          | returned text ↦ returned (inline_parts ++ text ∷ [])
        ]
      ]
    ]

merged : List String → String
unfolding merge_parts
merged [] = ""
merged (p ∷ []) = p
merged ps = merge_parts ps

-- strings.Join(parts, "\n")
unfoldable pub join_lines : List String → String
join_lines [] = ""
join_lines (p ∷ []) = p
join_lines (p ∷ q ∷ ps) = sprintf (p ∷ "\n" ∷ join_lines (q ∷ ps) ∷ [])

abbrev map_answer : {A B : Type 0} → (A → B) → Answer A → Answer B
map_answer f (returned a) = returned (f a)
map_answer f (refused err) = refused err

-- resolveCloudInitUserData
unfoldable pub resolve_user_data : (String → Answer (Dict String)) → CloudInit → Answer String
unfolding parts_of merged
resolve_user_data fetch c = map_answer merged (parts_of "cloud-init" user_data_keys fetch c)

-- resolveCloudInitMetaData
unfoldable pub resolve_meta_data : (String → Answer (Dict String)) → CloudInit → Answer String
unfolding parts_of join_lines
resolve_meta_data fetch c = map_answer join_lines (parts_of "metadata" meta_data_keys fetch c)
