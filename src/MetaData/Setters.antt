-- ===== src/MetaData/Setters.antt =====
-- The setters and removers of include/amqpcpp/metadata.h. The overloads for other kinds of strings
-- store the same bytes.
use amqp_cpp.Base.{ℕ, ◌<◌, ◌^◌, ◌≡◌, Bool, true, false, ◌&&◌, ◌==◌, List, [], arith}
use amqp_cpp.Field.{FieldMap, empty}
use amqp_cpp.Field.BooleanSet.{set, get-set}
use amqp_cpp.MetaData.{MetaData, has_delivery_mode}

-- The setters store the value and set its bit; the removers clear both.
unfoldable pub set_content_type : List ℕ → MetaData → MetaData
unfolding set
set_content_type value m = record m { content_type = value; bools1 = set m.bools1 7 true }

unfoldable pub set_content_encoding : List ℕ → MetaData → MetaData
unfolding set
set_content_encoding value m = record m { content_encoding = value; bools1 = set m.bools1 6 true }

unfoldable pub set_headers : FieldMap → MetaData → MetaData
unfolding set
set_headers value m = record m { headers = value; bools1 = set m.bools1 5 true }

unfoldable pub set_delivery_mode : ℕ → MetaData → MetaData
unfolding set
set_delivery_mode value m = record m { delivery_mode = value; bools1 = set m.bools1 4 true }

unfoldable pub set_priority : ℕ → MetaData → MetaData
unfolding set
set_priority value m = record m { priority = value; bools1 = set m.bools1 3 true }

unfoldable pub set_correlation_id : List ℕ → MetaData → MetaData
unfolding set
set_correlation_id value m = record m { correlation_id = value; bools1 = set m.bools1 2 true }

unfoldable pub set_reply_to : List ℕ → MetaData → MetaData
unfolding set
set_reply_to value m = record m { reply_to = value; bools1 = set m.bools1 1 true }

unfoldable pub set_expiration : List ℕ → MetaData → MetaData
unfolding set
set_expiration value m = record m { expiration = value; bools1 = set m.bools1 0 true }

unfoldable pub set_message_id : List ℕ → MetaData → MetaData
unfolding set
set_message_id value m = record m { message_id = value; bools2 = set m.bools2 7 true }

unfoldable pub set_timestamp : ℕ → MetaData → MetaData
unfolding set
set_timestamp value m = record m { timestamp = value; bools2 = set m.bools2 6 true }

unfoldable pub set_type_name : List ℕ → MetaData → MetaData
unfolding set
set_type_name value m = record m { type_name = value; bools2 = set m.bools2 5 true }

unfoldable pub set_user_id : List ℕ → MetaData → MetaData
unfolding set
set_user_id value m = record m { user_id = value; bools2 = set m.bools2 4 true }

unfoldable pub set_app_id : List ℕ → MetaData → MetaData
unfolding set
set_app_id value m = record m { app_id = value; bools2 = set m.bools2 3 true }

unfoldable pub set_cluster_id : List ℕ → MetaData → MetaData
unfolding set
set_cluster_id value m = record m { cluster_id = value; bools2 = set m.bools2 2 true }

unfoldable pub remove_content_type : MetaData → MetaData
unfolding set
remove_content_type m = record m { content_type = []; bools1 = set m.bools1 7 false }

unfoldable pub remove_content_encoding : MetaData → MetaData
unfolding set
remove_content_encoding m = record m { content_encoding = []; bools1 = set m.bools1 6 false }

unfoldable pub remove_headers : MetaData → MetaData
unfolding set
remove_headers m = record m { headers = empty; bools1 = set m.bools1 5 false }

unfoldable pub remove_delivery_mode : MetaData → MetaData
unfolding set
remove_delivery_mode m = record m { delivery_mode = 0; bools1 = set m.bools1 4 false }

unfoldable pub remove_priority : MetaData → MetaData
unfolding set
remove_priority m = record m { priority = 0; bools1 = set m.bools1 3 false }

unfoldable pub remove_correlation_id : MetaData → MetaData
unfolding set
remove_correlation_id m = record m { correlation_id = []; bools1 = set m.bools1 2 false }

unfoldable pub remove_reply_to : MetaData → MetaData
unfolding set
remove_reply_to m = record m { reply_to = []; bools1 = set m.bools1 1 false }

unfoldable pub remove_expiration : MetaData → MetaData
unfolding set
remove_expiration m = record m { expiration = []; bools1 = set m.bools1 0 false }

unfoldable pub remove_message_id : MetaData → MetaData
unfolding set
remove_message_id m = record m { message_id = []; bools2 = set m.bools2 7 false }

unfoldable pub remove_timestamp : MetaData → MetaData
unfolding set
remove_timestamp m = record m { timestamp = 0; bools2 = set m.bools2 6 false }

unfoldable pub remove_type_name : MetaData → MetaData
unfolding set
remove_type_name m = record m { type_name = []; bools2 = set m.bools2 5 false }

unfoldable pub remove_user_id : MetaData → MetaData
unfolding set
remove_user_id m = record m { user_id = []; bools2 = set m.bools2 4 false }

unfoldable pub remove_app_id : MetaData → MetaData
unfolding set
remove_app_id m = record m { app_id = []; bools2 = set m.bools2 3 false }

unfoldable pub remove_cluster_id : MetaData → MetaData
unfolding set
remove_cluster_id m = record m { cluster_id = []; bools2 = set m.bools2 2 false }

unfoldable pub persistent : MetaData → Bool
persistent m = has_delivery_mode m && m.delivery_mode == 2

unfoldable pub set_persistent : Bool → MetaData → MetaData
unfolding set set_delivery_mode
set_persistent true m = set_delivery_mode 2 m
set_persistent false m = record m { delivery_mode = 0; bools1 = set m.bools1 4 false }

-- In properties whose first boolean set is a byte, the persistency that was set is the one that is read.
pub persistent-set_persistent :
    (value : Bool) (m : MetaData) → m.bools1 < 2 ^ 8 → persistent (set_persistent value m) ≡ value
unfolding persistent set_persistent
persistent-set_persistent true m h = ground (arith, get-set m.bools1 4 4 true h)
persistent-set_persistent false m h = ground (arith, get-set m.bools1 4 4 false h)
