-- ===== src/Idempotency/HashPayload.antt =====
-- backend/src/common/idempotency/hash-payload.ts: the hash of a request's payload. The payloads are
-- transfer objects, whose values are texts without control characters; SHA-256 and `localeCompare`
-- are parameters.
use flow_pay.Prelude.{Bool, ◌||◌, [], ◌∷◌, ◌++◌, nat_beq, if◌then◌else◌}
use flow_pay.Prelude.Text.{Text}

pub record Platform : Type 0 where
  -- `createHash('sha256').update(text).digest('hex')`
  pub sha256 : Text → Text
  -- `a.localeCompare(b) <= 0`
  pub locale_le : Text → Text → Bool

mutual
  pub data Json : Type 0 where
    null : Json
    str : Text → Json
    arr : Items → Json
    obj : Fields → Json

  pub data Items : Type 0 where
    no_items : Items
    item : Json → Items → Items

  -- the entries of an object in their order
  pub data Fields : Type 0 where
    no_fields : Fields
    field : Text → Json → Fields → Fields

module _ (p : Platform) where
  -- A stable sort: an entry stands before those of later keys.
  abbrev pub place_field : Text → Json → Fields → Fields
  place_field k v no_fields = field k v no_fields
  place_field k v (field l w rest) =
      if p.locale_le k l then field k v (field l w rest) else field l w (place_field k v rest)

  unfoldable mutual
    pub sort_keys_deep : Json → Json
    sort_keys_deep null = null
    sort_keys_deep (str t) = str t
    sort_keys_deep (arr xs) = arr (sort_items xs)
    sort_keys_deep (obj fs) = obj (sort_fields fs)

    pub sort_items : Items → Items
    sort_items no_items = no_items
    sort_items (item x xs) = item (sort_keys_deep x) (sort_items xs)

    pub sort_fields : Fields → Fields
    sort_fields no_fields = no_fields
    sort_fields (field k v fs) = place_field k (sort_keys_deep v) (sort_fields fs)

-- a text between quotes, `"` and `\` escaped
abbrev escape : Text → Text
escape [] = []
escape (c ∷ t) = if nat_beq c b'"' || nat_beq c 92 then 92 ∷ c ∷ escape t else c ∷ escape t

abbrev quoted : Text → Text
quoted t = b'"' ∷ (escape t ++ (b'"' ∷ []))

-- a comma before all but the first part
abbrev joined : Text → Text → Text
joined part [] = part
joined part (c ∷ rest) = part ++ (b',' ∷ c ∷ rest)

-- `JSON.stringify`
unfoldable mutual
  pub stringify : Json → Text
  stringify null = 110 ∷ 117 ∷ 108 ∷ 108 ∷ []
  stringify (str t) = quoted t
  stringify (arr xs) = b'[' ∷ (stringify_items xs ++ (b']' ∷ []))
  stringify (obj fs) = b'{' ∷ (stringify_fields fs ++ (b'}' ∷ []))

  pub stringify_items : Items → Text
  stringify_items no_items = []
  stringify_items (item x xs) = joined (stringify x) (stringify_items xs)

  pub stringify_fields : Fields → Text
  stringify_fields no_fields = []
  stringify_fields (field k v fs) = joined (quoted k ++ (b':' ∷ stringify v)) (stringify_fields fs)

unfoldable pub hash_payload : Platform → Json → Text
unfolding stringify sort_keys_deep
hash_payload p payload = p.sha256 (stringify (sort_keys_deep p payload))
