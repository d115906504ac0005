-- ===== src/MetaData/RoundTrip.antt =====
-- Writing and reading the properties of include/amqpcpp/metadata.h.
use amqp_cpp.Base.{ℕ, ◌^◌, ◌<◌, ◌≡◌, refl, sym, Bool, true, false, List, [], ◌++◌, length}
use amqp_cpp.Wire.{Reader, ok}
use amqp_cpp.Wire.Reads.{Reads, at, Reads-pure, Reads-bind, Reads-map, Reads-cast}
use amqp_cpp.Wire.Primitives.{Reads-uint8, Reads-uint64}
use amqp_cpp.Field.{empty, table}
use amqp_cpp.Field.Size.{EntriesTyped}
use amqp_cpp.Field.RoundTrip.{IsEncodable, Reads-short_string, Reads-read_table}
use amqp_cpp.MetaData.{
  MetaData, fill, fill_properties, fill_if, next_if, read_meta_data, read_properties,
  has_content_type, has_content_encoding, has_headers, has_delivery_mode, has_priority,
  has_correlation_id, has_reply_to, has_expiration, has_message_id, has_timestamp, has_type_name,
  has_user_id, has_app_id, has_cluster_id,
}

-- A present property can be carried, and an absent one has the value of an empty object.
pub record Carried {ℓ κ} {A : Type ℓ} (P : A → Type κ) (absent : A) (has : Bool) (v : A)
    : Type (ℓ ⊔ κ) where
  pub present : has ≡ true → P v
  pub missing : has ≡ false → v ≡ absent

pub record IsValid (m : MetaData) : Type 0 where
  pub byte1 : m.bools1 < 2 ^ 8
  pub byte2 : m.bools2 < 2 ^ 8
  pub content_type : Carried (λ v. length v < 2 ^ 8) [] (has_content_type m) m.content_type
  pub content_encoding :
      Carried (λ v. length v < 2 ^ 8) [] (has_content_encoding m) m.content_encoding
  pub headers :
      Carried (λ v. EntriesTyped v × IsEncodable (table v)) empty (has_headers m) m.headers
  pub delivery_mode : Carried (λ v. v < 2 ^ 8) 0 (has_delivery_mode m) m.delivery_mode
  pub priority : Carried (λ v. v < 2 ^ 8) 0 (has_priority m) m.priority
  pub correlation_id : Carried (λ v. length v < 2 ^ 8) [] (has_correlation_id m) m.correlation_id
  pub reply_to : Carried (λ v. length v < 2 ^ 8) [] (has_reply_to m) m.reply_to
  pub expiration : Carried (λ v. length v < 2 ^ 8) [] (has_expiration m) m.expiration
  pub message_id : Carried (λ v. length v < 2 ^ 8) [] (has_message_id m) m.message_id
  pub timestamp : Carried (λ v. v < 2 ^ 64) 0 (has_timestamp m) m.timestamp
  pub type_name : Carried (λ v. length v < 2 ^ 8) [] (has_type_name m) m.type_name
  pub user_id : Carried (λ v. length v < 2 ^ 8) [] (has_user_id m) m.user_id
  pub app_id : Carried (λ v. length v < 2 ^ 8) [] (has_app_id m) m.app_id
  pub cluster_id : Carried (λ v. length v < 2 ^ 8) [] (has_cluster_id m) m.cluster_id

Reads-next_if {ℓ κ} :
    {A : Type ℓ} (P : A → Type κ) {absent : A} (has : Bool) {read : Reader A} {bytes : List ℕ}
    {v : A}
    → Carried P absent has v
    → (P v → Reads read bytes v)
    → Reads (next_if has absent read) (fill_if has bytes) v
Reads-next_if P true c h = h (c.present refl)
Reads-next_if P false c h = Reads-cast refl (sym (c.missing refl)) (Reads-pure _)

Reads-read_properties :
    (m : MetaData) → IsValid m → Reads (read_properties m.bools1 m.bools2) (fill_properties m) m
unfolding read_properties fill_properties
Reads-read_properties m v =
    (Reads-bind _
      (Reads-next_if _ (has_content_type m) v.content_type
        (λ h. Reads-short_string m.content_type h))
      (Reads-bind _
        (Reads-next_if _ (has_content_encoding m) v.content_encoding
          (λ h. Reads-short_string m.content_encoding h))
        (Reads-bind _
          (Reads-next_if _ (has_headers m) v.headers (λ h. Reads-read_table m.headers h.0 h.1))
          (Reads-bind _
            (Reads-next_if _ (has_delivery_mode m) v.delivery_mode
              (λ h. Reads-uint8 m.delivery_mode h))
            (Reads-bind _
              (Reads-next_if _ (has_priority m) v.priority (λ h. Reads-uint8 m.priority h))
              (Reads-bind _
                (Reads-next_if _ (has_correlation_id m) v.correlation_id
                  (λ h. Reads-short_string m.correlation_id h))
                (Reads-bind _
                  (Reads-next_if _ (has_reply_to m) v.reply_to
                    (λ h. Reads-short_string m.reply_to h))
                  (Reads-bind _
                    (Reads-next_if _ (has_expiration m) v.expiration
                      (λ h. Reads-short_string m.expiration h))
                    (Reads-bind _
                      (Reads-next_if _ (has_message_id m) v.message_id
                        (λ h. Reads-short_string m.message_id h))
                      (Reads-bind _
                        (Reads-next_if _ (has_timestamp m) v.timestamp
                          (λ h. Reads-uint64 m.timestamp h))
                        (Reads-bind _
                          (Reads-next_if _ (has_type_name m) v.type_name
                            (λ h. Reads-short_string m.type_name h))
                          (Reads-bind _
                            (Reads-next_if _ (has_user_id m) v.user_id
                              (λ h. Reads-short_string m.user_id h))
                            (Reads-bind _
                              (Reads-next_if _ (has_app_id m) v.app_id
                                (λ h. Reads-short_string m.app_id h))
                              (Reads-map
                                (λ cluster_id. record {
                                  bools1 = m.bools1;
                                  bools2 = m.bools2;
                                  content_type = m.content_type;
                                  content_encoding = m.content_encoding;
                                  headers = m.headers;
                                  delivery_mode = m.delivery_mode;
                                  priority = m.priority;
                                  correlation_id = m.correlation_id;
                                  reply_to = m.reply_to;
                                  expiration = m.expiration;
                                  message_id = m.message_id;
                                  timestamp = m.timestamp;
                                  type_name = m.type_name;
                                  user_id = m.user_id;
                                  app_id = m.app_id;
                                  cluster_id = cluster_id;
                                })
                                (Reads-next_if _ (has_cluster_id m) v.cluster_id
                                  (λ h. Reads-short_string m.cluster_id h))))))))))))))))

pub Reads-read_meta_data : (m : MetaData) → IsValid m → Reads read_meta_data (fill m) m
unfolding read_meta_data fill
Reads-read_meta_data m v =
    Reads-bind _ (Reads-uint8 m.bools1 v.byte1)
      (Reads-bind _ (Reads-uint8 m.bools2 v.byte2) (Reads-read_properties m v))

-- Properties whose present values can be carried and whose absent values are empty are read back from
-- what `fill` wrote, at any place in a buffer below 2 ^ 64 bytes and whatever follows.
pub read_meta_data-fill :
    (m : MetaData) (front rest : List ℕ)
    → IsValid m
    → length (front ++ (fill m ++ rest)) < 2 ^ 64
    → read_meta_data (at front (fill m ++ rest)) ≡ ok (m, at (front ++ fill m) rest)
read_meta_data-fill m front rest v = (Reads-read_meta_data m v).run front rest
