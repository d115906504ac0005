-- ===== src/MetaData/Size.antt =====
-- `MetaData::size` of include/amqpcpp/metadata.h against `MetaData::fill`.
use amqp_cpp.Base.{
  ℕ, ◌+◌, ◌%◌, ◌^◌, ◌<◌, ◌≡◌, refl, sym, ap, Bool, true, false, List, ◌++◌, length, length-append,
  arith,
}
use amqp_cpp.Wire.{add_uint8, add_uint64}
use amqp_cpp.Wire.Primitives.{length-add_uint8, length-add_uint64}
use amqp_cpp.Field.{fill_table, table_size, fill_short_string, short_string_size}
use amqp_cpp.Field.Size.{EntriesTyped, length-fill_table, length-fill_short_string}
use amqp_cpp.MetaData.{
  MetaData, fill, fill_properties, size, size_if, fill_if, has_content_type, has_content_encoding,
  has_headers, has_delivery_mode, has_priority, has_correlation_id, has_reply_to, has_expiration,
  has_message_id, has_timestamp, has_type_name, has_user_id, has_app_id, has_cluster_id,
}

-- `size` is the number of bytes that `fill` writes, below 2 ^ 32.
size_if-length :
    (has : Bool) (n : ℕ) (bytes : List ℕ)
    → length bytes ≡ n
    → size_if has n ≡ length (fill_if has bytes) % 2 ^ 32
size_if-length true n bytes h = ap (λ (k : ℕ). k % 2 ^ 32) (sym h)
size_if-length false n bytes h = refl

-- The properties one after the other.
length-fill_parts :
    (m : MetaData)
    → length (fill_properties m)
      ≡ length (fill_if (has_content_type m) (fill_short_string m.content_type))
        + length (fill_if (has_content_encoding m) (fill_short_string m.content_encoding))
        + length (fill_if (has_headers m) (fill_table m.headers))
        + length (fill_if (has_delivery_mode m) (add_uint8 m.delivery_mode))
        + length (fill_if (has_priority m) (add_uint8 m.priority))
        + length (fill_if (has_correlation_id m) (fill_short_string m.correlation_id))
        + length (fill_if (has_reply_to m) (fill_short_string m.reply_to))
        + length (fill_if (has_expiration m) (fill_short_string m.expiration))
        + length (fill_if (has_message_id m) (fill_short_string m.message_id))
        + length (fill_if (has_timestamp m) (add_uint64 m.timestamp))
        + length (fill_if (has_type_name m) (fill_short_string m.type_name))
        + length (fill_if (has_user_id m) (fill_short_string m.user_id))
        + length (fill_if (has_app_id m) (fill_short_string m.app_id))
        + length (fill_if (has_cluster_id m) (fill_short_string m.cluster_id))
unfolding fill_properties
length-fill_parts m = omega (
  arith,
  length-append (fill_if (has_content_type m) (fill_short_string m.content_type)) (
      fill_if (has_content_encoding m) (fill_short_string m.content_encoding)
      ++ (fill_if (has_headers m) (fill_table m.headers)
          ++ (fill_if (has_delivery_mode m) (add_uint8 m.delivery_mode)
              ++ (fill_if (has_priority m) (add_uint8 m.priority)
                  ++ (fill_if (has_correlation_id m) (fill_short_string m.correlation_id)
                      ++ (fill_if (has_reply_to m) (fill_short_string m.reply_to)
                          ++ (fill_if (has_expiration m) (fill_short_string m.expiration)
                              ++ (fill_if (has_message_id m) (fill_short_string m.message_id)
                                  ++ (fill_if (has_timestamp m) (add_uint64 m.timestamp)
                                      ++ (fill_if (has_type_name m) (fill_short_string m.type_name)
                                          ++ (fill_if (has_user_id m) (fill_short_string m.user_id)
                                              ++ (fill_if (has_app_id m)
                                                    (fill_short_string m.app_id)
                                                  ++ fill_if (has_cluster_id m)
                                                      (fill_short_string m.cluster_id))))))))))))),
  length-append (fill_if (has_content_encoding m) (fill_short_string m.content_encoding)) (
      fill_if (has_headers m) (fill_table m.headers)
      ++ (fill_if (has_delivery_mode m) (add_uint8 m.delivery_mode)
          ++ (fill_if (has_priority m) (add_uint8 m.priority)
              ++ (fill_if (has_correlation_id m) (fill_short_string m.correlation_id)
                  ++ (fill_if (has_reply_to m) (fill_short_string m.reply_to)
                      ++ (fill_if (has_expiration m) (fill_short_string m.expiration)
                          ++ (fill_if (has_message_id m) (fill_short_string m.message_id)
                              ++ (fill_if (has_timestamp m) (add_uint64 m.timestamp)
                                  ++ (fill_if (has_type_name m) (fill_short_string m.type_name)
                                      ++ (fill_if (has_user_id m) (fill_short_string m.user_id)
                                          ++ (fill_if (has_app_id m) (fill_short_string m.app_id)
                                              ++ fill_if (has_cluster_id m)
                                                  (fill_short_string m.cluster_id)))))))))))),
  length-append (fill_if (has_headers m) (fill_table m.headers)) (
      fill_if (has_delivery_mode m) (add_uint8 m.delivery_mode)
      ++ (fill_if (has_priority m) (add_uint8 m.priority)
          ++ (fill_if (has_correlation_id m) (fill_short_string m.correlation_id)
              ++ (fill_if (has_reply_to m) (fill_short_string m.reply_to)
                  ++ (fill_if (has_expiration m) (fill_short_string m.expiration)
                      ++ (fill_if (has_message_id m) (fill_short_string m.message_id)
                          ++ (fill_if (has_timestamp m) (add_uint64 m.timestamp)
                              ++ (fill_if (has_type_name m) (fill_short_string m.type_name)
                                  ++ (fill_if (has_user_id m) (fill_short_string m.user_id)
                                      ++ (fill_if (has_app_id m) (fill_short_string m.app_id)
                                          ++ fill_if (has_cluster_id m)
                                              (fill_short_string m.cluster_id))))))))))),
  length-append (fill_if (has_delivery_mode m) (add_uint8 m.delivery_mode)) (
      fill_if (has_priority m) (add_uint8 m.priority)
      ++ (fill_if (has_correlation_id m) (fill_short_string m.correlation_id)
          ++ (fill_if (has_reply_to m) (fill_short_string m.reply_to)
              ++ (fill_if (has_expiration m) (fill_short_string m.expiration)
                  ++ (fill_if (has_message_id m) (fill_short_string m.message_id)
                      ++ (fill_if (has_timestamp m) (add_uint64 m.timestamp)
                          ++ (fill_if (has_type_name m) (fill_short_string m.type_name)
                              ++ (fill_if (has_user_id m) (fill_short_string m.user_id)
                                  ++ (fill_if (has_app_id m) (fill_short_string m.app_id)
                                      ++ fill_if (has_cluster_id m)
                                          (fill_short_string m.cluster_id)))))))))),
  length-append (fill_if (has_priority m) (add_uint8 m.priority)) (
      fill_if (has_correlation_id m) (fill_short_string m.correlation_id)
      ++ (fill_if (has_reply_to m) (fill_short_string m.reply_to)
          ++ (fill_if (has_expiration m) (fill_short_string m.expiration)
              ++ (fill_if (has_message_id m) (fill_short_string m.message_id)
                  ++ (fill_if (has_timestamp m) (add_uint64 m.timestamp)
                      ++ (fill_if (has_type_name m) (fill_short_string m.type_name)
                          ++ (fill_if (has_user_id m) (fill_short_string m.user_id)
                              ++ (fill_if (has_app_id m) (fill_short_string m.app_id)
                                  ++ fill_if (has_cluster_id m)
                                      (fill_short_string m.cluster_id))))))))),
  length-append (fill_if (has_correlation_id m) (fill_short_string m.correlation_id)) (
      fill_if (has_reply_to m) (fill_short_string m.reply_to)
      ++ (fill_if (has_expiration m) (fill_short_string m.expiration)
          ++ (fill_if (has_message_id m) (fill_short_string m.message_id)
              ++ (fill_if (has_timestamp m) (add_uint64 m.timestamp)
                  ++ (fill_if (has_type_name m) (fill_short_string m.type_name)
                      ++ (fill_if (has_user_id m) (fill_short_string m.user_id)
                          ++ (fill_if (has_app_id m) (fill_short_string m.app_id)
                              ++ fill_if (has_cluster_id m) (fill_short_string m.cluster_id)))))))),
  length-append (fill_if (has_reply_to m) (fill_short_string m.reply_to)) (
      fill_if (has_expiration m) (fill_short_string m.expiration)
      ++ (fill_if (has_message_id m) (fill_short_string m.message_id)
          ++ (fill_if (has_timestamp m) (add_uint64 m.timestamp)
              ++ (fill_if (has_type_name m) (fill_short_string m.type_name)
                  ++ (fill_if (has_user_id m) (fill_short_string m.user_id)
                      ++ (fill_if (has_app_id m) (fill_short_string m.app_id)
                          ++ fill_if (has_cluster_id m) (fill_short_string m.cluster_id))))))),
  length-append (fill_if (has_expiration m) (fill_short_string m.expiration)) (
      fill_if (has_message_id m) (fill_short_string m.message_id)
      ++ (fill_if (has_timestamp m) (add_uint64 m.timestamp)
          ++ (fill_if (has_type_name m) (fill_short_string m.type_name)
              ++ (fill_if (has_user_id m) (fill_short_string m.user_id)
                  ++ (fill_if (has_app_id m) (fill_short_string m.app_id)
                      ++ fill_if (has_cluster_id m) (fill_short_string m.cluster_id)))))),
  length-append (fill_if (has_message_id m) (fill_short_string m.message_id)) (
      fill_if (has_timestamp m) (add_uint64 m.timestamp)
      ++ (fill_if (has_type_name m) (fill_short_string m.type_name)
          ++ (fill_if (has_user_id m) (fill_short_string m.user_id)
              ++ (fill_if (has_app_id m) (fill_short_string m.app_id)
                  ++ fill_if (has_cluster_id m) (fill_short_string m.cluster_id))))),
  length-append (fill_if (has_timestamp m) (add_uint64 m.timestamp)) (
      fill_if (has_type_name m) (fill_short_string m.type_name)
      ++ (fill_if (has_user_id m) (fill_short_string m.user_id)
          ++ (fill_if (has_app_id m) (fill_short_string m.app_id)
              ++ fill_if (has_cluster_id m) (fill_short_string m.cluster_id)))),
  length-append (fill_if (has_type_name m) (fill_short_string m.type_name)) (
      fill_if (has_user_id m) (fill_short_string m.user_id)
      ++ (fill_if (has_app_id m) (fill_short_string m.app_id)
          ++ fill_if (has_cluster_id m) (fill_short_string m.cluster_id))),
  length-append (fill_if (has_user_id m) (fill_short_string m.user_id)) (
      fill_if (has_app_id m) (fill_short_string m.app_id)
      ++ fill_if (has_cluster_id m) (fill_short_string m.cluster_id)),
  length-append (fill_if (has_app_id m) (fill_short_string m.app_id))
      (fill_if (has_cluster_id m) (fill_short_string m.cluster_id)),
)

-- Of any properties, the announced size is the length of what `fill` writes, below 2 ^ 32.
pub length-fill_meta_data :
    (m : MetaData) → EntriesTyped m.headers → length (fill m) < 2 ^ 32 → length (fill m) ≡ size m
unfolding size fill
length-fill_meta_data m typed bound = omega (
  arith,
  length-add_uint8 m.bools1,
  length-add_uint8 m.bools2,
  length-append (add_uint8 m.bools1) (add_uint8 m.bools2 ++ fill_properties m),
  length-append (add_uint8 m.bools2) (fill_properties m),
  length-fill_parts m,
  size_if-length (has_content_type m) (short_string_size m.content_type)
      (fill_short_string m.content_type) (length-fill_short_string m.content_type),
  size_if-length (has_content_encoding m) (short_string_size m.content_encoding)
      (fill_short_string m.content_encoding) (length-fill_short_string m.content_encoding),
  size_if-length (has_headers m) (table_size m.headers) (fill_table m.headers)
      (length-fill_table m.headers typed),
  size_if-length (has_delivery_mode m) (1) (add_uint8 m.delivery_mode)
      (length-add_uint8 m.delivery_mode),
  size_if-length (has_priority m) (1) (add_uint8 m.priority) (length-add_uint8 m.priority),
  size_if-length (has_correlation_id m) (short_string_size m.correlation_id)
      (fill_short_string m.correlation_id) (length-fill_short_string m.correlation_id),
  size_if-length (has_reply_to m) (short_string_size m.reply_to) (fill_short_string m.reply_to)
      (length-fill_short_string m.reply_to),
  size_if-length (has_expiration m) (short_string_size m.expiration)
      (fill_short_string m.expiration) (length-fill_short_string m.expiration),
  size_if-length (has_message_id m) (short_string_size m.message_id)
      (fill_short_string m.message_id) (length-fill_short_string m.message_id),
  size_if-length (has_timestamp m) (8) (add_uint64 m.timestamp) (length-add_uint64 m.timestamp),
  size_if-length (has_type_name m) (short_string_size m.type_name) (fill_short_string m.type_name)
      (length-fill_short_string m.type_name),
  size_if-length (has_user_id m) (short_string_size m.user_id) (fill_short_string m.user_id)
      (length-fill_short_string m.user_id),
  size_if-length (has_app_id m) (short_string_size m.app_id) (fill_short_string m.app_id)
      (length-fill_short_string m.app_id),
  size_if-length (has_cluster_id m) (short_string_size m.cluster_id)
      (fill_short_string m.cluster_id) (length-fill_short_string m.cluster_id),
)
