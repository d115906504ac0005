-- ===== src/MetaData.antt =====
-- include/amqpcpp/metadata.h: the properties of a message. Two boolean sets say which are present, and
-- only those are written.
pub mod Setters
pub mod RoundTrip
pub mod Size
use amqp_cpp.Base.{ℕ, ◌+◌, ◌%◌, ◌^◌, Bool, if◌then◌else◌, List, [], ◌++◌}
use amqp_cpp.Wire.{Reader, pure, ◌>>=◌, next_uint8, next_uint64, add_uint8, add_uint64}
use amqp_cpp.Field.{FieldMap, empty, fill_table, table_size, fill_short_string, short_string_size}
use amqp_cpp.Field.BooleanSet.{get}
use amqp_cpp.Field.Decode.{next_short_string, read_table}

pub record MetaData : Type 0 where
  pub bools1 : ℕ
  pub bools2 : ℕ
  pub content_type : List ℕ
  pub content_encoding : List ℕ
  pub headers : FieldMap
  pub delivery_mode : ℕ
  pub priority : ℕ
  pub correlation_id : List ℕ
  pub reply_to : List ℕ
  pub expiration : List ℕ
  pub message_id : List ℕ
  pub timestamp : ℕ
  pub type_name : List ℕ
  pub user_id : List ℕ
  pub app_id : List ℕ
  pub cluster_id : List ℕ

abbrev pub has_content_type : MetaData → Bool
has_content_type m = get m.bools1 7

abbrev pub has_content_encoding : MetaData → Bool
has_content_encoding m = get m.bools1 6

abbrev pub has_headers : MetaData → Bool
has_headers m = get m.bools1 5

abbrev pub has_delivery_mode : MetaData → Bool
has_delivery_mode m = get m.bools1 4

abbrev pub has_priority : MetaData → Bool
has_priority m = get m.bools1 3

abbrev pub has_correlation_id : MetaData → Bool
has_correlation_id m = get m.bools1 2

abbrev pub has_reply_to : MetaData → Bool
has_reply_to m = get m.bools1 1

abbrev pub has_expiration : MetaData → Bool
has_expiration m = get m.bools1 0

abbrev pub has_message_id : MetaData → Bool
has_message_id m = get m.bools2 7

abbrev pub has_timestamp : MetaData → Bool
has_timestamp m = get m.bools2 6

abbrev pub has_type_name : MetaData → Bool
has_type_name m = get m.bools2 5

abbrev pub has_user_id : MetaData → Bool
has_user_id m = get m.bools2 4

abbrev pub has_app_id : MetaData → Bool
has_app_id m = get m.bools2 3

abbrev pub has_cluster_id : MetaData → Bool
has_cluster_id m = get m.bools2 2

-- The object that `MetaData()` makes.
abbrev pub no_properties : MetaData
no_properties = record {
  bools1 = 0;
  bools2 = 0;
  content_type = [];
  content_encoding = [];
  headers = empty;
  delivery_mode = 0;
  priority = 0;
  correlation_id = [];
  reply_to = [];
  expiration = [];
  message_id = [];
  timestamp = 0;
  type_name = [];
  user_id = [];
  app_id = [];
  cluster_id = [];
}

abbrev pub size_if : Bool → ℕ → ℕ
size_if has n = if has then n % 2 ^ 32 else 0

-- The sum of a `uint32_t`, in the order of the source.
unfoldable pub size : MetaData → ℕ
size m =
    (2
      + size_if (has_expiration m) (short_string_size m.expiration)
      + size_if (has_reply_to m) (short_string_size m.reply_to)
      + size_if (has_correlation_id m) (short_string_size m.correlation_id)
      + size_if (has_priority m) (1)
      + size_if (has_delivery_mode m) (1)
      + size_if (has_headers m) (table_size m.headers)
      + size_if (has_content_encoding m) (short_string_size m.content_encoding)
      + size_if (has_content_type m) (short_string_size m.content_type)
      + size_if (has_cluster_id m) (short_string_size m.cluster_id)
      + size_if (has_app_id m) (short_string_size m.app_id)
      + size_if (has_user_id m) (short_string_size m.user_id)
      + size_if (has_type_name m) (short_string_size m.type_name)
      + size_if (has_timestamp m) (8)
      + size_if (has_message_id m) (short_string_size m.message_id))
    % 2 ^ 32

abbrev pub fill_if : Bool → List ℕ → List ℕ
fill_if has bytes = if has then bytes else []

unfoldable pub fill_properties : MetaData → List ℕ
fill_properties m =
    fill_if (has_content_type m) (fill_short_string m.content_type)
    ++ (fill_if (has_content_encoding m) (fill_short_string m.content_encoding)
        ++ (fill_if (has_headers m) (fill_table m.headers)
            ++ (fill_if (has_delivery_mode m) (add_uint8 m.delivery_mode)
                ++ (fill_if (has_priority m) (add_uint8 m.priority)
                    ++ (fill_if (has_correlation_id m) (fill_short_string m.correlation_id)
                        ++ (fill_if (has_reply_to m) (fill_short_string m.reply_to)
                            ++ (fill_if (has_expiration m) (fill_short_string m.expiration)
                                ++ (fill_if (has_message_id m) (fill_short_string m.message_id)
                                    ++ (fill_if (has_timestamp m) (add_uint64 m.timestamp)
                                        ++ (fill_if (has_type_name m)
                                              (fill_short_string m.type_name)
                                            ++ (fill_if (has_user_id m)
                                                  (fill_short_string m.user_id)
                                                ++ (fill_if (has_app_id m)
                                                      (fill_short_string m.app_id)
                                                    ++ fill_if (has_cluster_id m)
                                                        (fill_short_string m.cluster_id)))))))))))))

unfoldable pub fill : MetaData → List ℕ
unfolding fill_properties
fill m = add_uint8 m.bools1 ++ (add_uint8 m.bools2 ++ fill_properties m)

-- A property that is not present keeps the value of an empty object.
abbrev pub next_if {ℓ} : {A : Type ℓ} → Bool → A → Reader A → Reader A
next_if has absent read = if has then read else pure absent

-- `MetaData(InBuffer &)`.
unfoldable pub read_properties : ℕ → ℕ → Reader MetaData
read_properties bools1 bools2 = next_if (get bools1 7) [] next_short_string >>= λ content_type.
    next_if (get bools1 6) [] next_short_string >>= λ content_encoding.
    next_if (get bools1 5) empty read_table >>= λ headers.
    next_if (get bools1 4) 0 next_uint8 >>= λ delivery_mode.
    next_if (get bools1 3) 0 next_uint8 >>= λ priority.
    next_if (get bools1 2) [] next_short_string >>= λ correlation_id.
    next_if (get bools1 1) [] next_short_string >>= λ reply_to.
    next_if (get bools1 0) [] next_short_string >>= λ expiration.
    next_if (get bools2 7) [] next_short_string >>= λ message_id.
    next_if (get bools2 6) 0 next_uint64 >>= λ timestamp.
    next_if (get bools2 5) [] next_short_string >>= λ type_name.
    next_if (get bools2 4) [] next_short_string >>= λ user_id.
    next_if (get bools2 3) [] next_short_string >>= λ app_id.
    next_if (get bools2 2) [] next_short_string >>= λ cluster_id. pure (record {
      bools1 = bools1;
      bools2 = bools2;
      content_type = content_type;
      content_encoding = content_encoding;
      headers = headers;
      delivery_mode = delivery_mode;
      priority = priority;
      correlation_id = correlation_id;
      reply_to = reply_to;
      expiration = expiration;
      message_id = message_id;
      timestamp = timestamp;
      type_name = type_name;
      user_id = user_id;
      app_id = app_id;
      cluster_id = cluster_id;
    })

unfoldable pub read_meta_data : Reader MetaData
unfolding read_properties
read_meta_data = next_uint8 >>= λ bools1. next_uint8 >>= λ bools2. read_properties bools1 bools2
