-- ===== src/Proxy/Words.antt =====
-- The keys, values and texts of the proxy's messages (nodebus/proxy/stdpeer.cpp, httppeer.cpp), in
-- ASCII.
use jsonbus.Prelude.{ℕ, List, [], ◌∷◌, ◌++◌}

pub data Word : Type 0 where
  object_word type_word status_word error_message_word data_word : Word
  uid_word tuid_word method_word parameters_word rel_msg_uid_word : Word
  box_count_word message_word request_word response_word success_word : Word
  failure_word proxy_word gateway_word register_word help_word : Word
  ping_word get_status_word get_box_list_word post_word application_json_word : Word
  application_bson_word application_bcon_word : Word

unfoldable pub word : Word → List ℕ
word object_word = 111 ∷ 98 ∷ 106 ∷ 101 ∷ 99 ∷ 116 ∷ []
word type_word = 116 ∷ 121 ∷ 112 ∷ 101 ∷ []
word status_word = 115 ∷ 116 ∷ 97 ∷ 116 ∷ 117 ∷ 115 ∷ []
word error_message_word =
    101 ∷ 114 ∷ 114 ∷ 111 ∷ 114 ∷ 45 ∷ 109 ∷ 101 ∷ 115 ∷ 115 ∷ 97 ∷ 103 ∷ 101 ∷ []
word data_word = 100 ∷ 97 ∷ 116 ∷ 97 ∷ []
word uid_word = 117 ∷ 105 ∷ 100 ∷ []
word tuid_word = 116 ∷ 117 ∷ 105 ∷ 100 ∷ []
word method_word = 109 ∷ 101 ∷ 116 ∷ 104 ∷ 111 ∷ 100 ∷ []
word parameters_word = 112 ∷ 97 ∷ 114 ∷ 97 ∷ 109 ∷ 101 ∷ 116 ∷ 101 ∷ 114 ∷ 115 ∷ []
word rel_msg_uid_word = 114 ∷ 101 ∷ 108 ∷ 45 ∷ 109 ∷ 115 ∷ 103 ∷ 45 ∷ 117 ∷ 105 ∷ 100 ∷ []
word box_count_word = 98 ∷ 111 ∷ 120 ∷ 45 ∷ 99 ∷ 111 ∷ 117 ∷ 110 ∷ 116 ∷ []
word message_word = 109 ∷ 101 ∷ 115 ∷ 115 ∷ 97 ∷ 103 ∷ 101 ∷ []
word request_word = 114 ∷ 101 ∷ 113 ∷ 117 ∷ 101 ∷ 115 ∷ 116 ∷ []
word response_word = 114 ∷ 101 ∷ 115 ∷ 112 ∷ 111 ∷ 110 ∷ 115 ∷ 101 ∷ []
word success_word = 115 ∷ 117 ∷ 99 ∷ 99 ∷ 101 ∷ 115 ∷ 115 ∷ []
word failure_word = 102 ∷ 97 ∷ 105 ∷ 108 ∷ 117 ∷ 114 ∷ 101 ∷ []
word proxy_word = 80 ∷ 114 ∷ 111 ∷ 120 ∷ 121 ∷ []
word gateway_word = 71 ∷ 97 ∷ 116 ∷ 101 ∷ 119 ∷ 97 ∷ 121 ∷ []
word register_word = 114 ∷ 101 ∷ 103 ∷ 105 ∷ 115 ∷ 116 ∷ 101 ∷ 114 ∷ []
word help_word = 104 ∷ 101 ∷ 108 ∷ 112 ∷ []
word ping_word = 112 ∷ 105 ∷ 110 ∷ 103 ∷ []
word get_status_word = 103 ∷ 101 ∷ 116 ∷ 83 ∷ 116 ∷ 97 ∷ 116 ∷ 117 ∷ 115 ∷ []
word get_box_list_word = 103 ∷ 101 ∷ 116 ∷ 66 ∷ 111 ∷ 120 ∷ 76 ∷ 105 ∷ 115 ∷ 116 ∷ []
word post_word = 80 ∷ 79 ∷ 83 ∷ 84 ∷ []
word application_json_word =
    97 ∷ 112 ∷ 112 ∷ 108 ∷ 105 ∷ 99 ∷ 97 ∷ 116 ∷ 105 ∷ 111 ∷ 110 ∷ 47 ∷ 106 ∷ 115 ∷ 111 ∷ 110 ∷ []
word application_bson_word =
    97 ∷ 112 ∷ 112 ∷ 108 ∷ 105 ∷ 99 ∷ 97 ∷ 116 ∷ 105 ∷ 111 ∷ 110 ∷ 47 ∷ 98 ∷ 115 ∷ 111 ∷ 110 ∷ []
word application_bcon_word =
    97 ∷ 112 ∷ 112 ∷ 108 ∷ 105 ∷ 99 ∷ 97 ∷ 116 ∷ 105 ∷ 111 ∷ 110 ∷ 47 ∷ 98 ∷ 99 ∷ 111 ∷ 110 ∷ []

-- What an error message says.
pub data Text : Type 0 where
  missing_object invalid_type already_registered missing_uid : Text
  request_timeout invalid_header only_post unknown_content_type : Text
  no_data only_request : Text
  service_not_found invalid_std_method data_parse_error no_box invalid_http_method : List ℕ → Text

unfoldable pub text : Text → List ℕ
text missing_object =
    77 ∷ 97 ∷ 108 ∷ 102 ∷ 111 ∷ 114 ∷ 109 ∷ 101 ∷ 100 ∷ 32 ∷ 109 ∷ 101 ∷ 115 ∷ 115 ∷ 97 ∷ 103 ∷ 101
    ∷ 44 ∷ 32 ∷ 109 ∷ 105 ∷ 115 ∷ 115 ∷ 105 ∷ 110 ∷ 103 ∷ 32 ∷ 39 ∷ 111 ∷ 98 ∷ 106 ∷ 101 ∷ 99 ∷ 116
    ∷ 39 ∷ 32 ∷ 102 ∷ 105 ∷ 101 ∷ 108 ∷ 100 ∷ []
text invalid_type =
    77 ∷ 97 ∷ 108 ∷ 102 ∷ 111 ∷ 114 ∷ 109 ∷ 101 ∷ 100 ∷ 32 ∷ 109 ∷ 101 ∷ 115 ∷ 115 ∷ 97 ∷ 103 ∷ 101
    ∷ 44 ∷ 32 ∷ 105 ∷ 110 ∷ 118 ∷ 97 ∷ 108 ∷ 105 ∷ 100 ∷ 32 ∷ 39 ∷ 116 ∷ 121 ∷ 112 ∷ 101 ∷ 39 ∷ 32
    ∷ 102 ∷ 105 ∷ 101 ∷ 108 ∷ 100 ∷ []
text (service_not_found object) =
    (83 ∷ 101 ∷ 114 ∷ 118 ∷ 105 ∷ 99 ∷ 101 ∷ 32 ∷ 39 ∷ [])
    ++ object
    ++ (39 ∷ 32 ∷ 110 ∷ 111 ∷ 116 ∷ 32 ∷ 102 ∷ 111 ∷ 117 ∷ 110 ∷ 100 ∷ [])
text already_registered =
    65 ∷ 108 ∷ 114 ∷ 101 ∷ 97 ∷ 100 ∷ 121 ∷ 32 ∷ 114 ∷ 101 ∷ 103 ∷ 105 ∷ 115 ∷ 116 ∷ 114 ∷ 101 ∷ 100
    ∷ []
text missing_uid =
    114 ∷ 101 ∷ 103 ∷ 105 ∷ 115 ∷ 116 ∷ 101 ∷ 114 ∷ 58 ∷ 32 ∷ 77 ∷ 105 ∷ 115 ∷ 115 ∷ 105 ∷ 110 ∷ 103
    ∷ 32 ∷ 112 ∷ 97 ∷ 114 ∷ 97 ∷ 109 ∷ 101 ∷ 116 ∷ 101 ∷ 114 ∷ 32 ∷ 39 ∷ 117 ∷ 105 ∷ 100 ∷ 39 ∷ []
text (invalid_std_method method) =
    (105 ∷ 110 ∷ 118 ∷ 97 ∷ 108 ∷ 105 ∷ 100 ∷ 32 ∷ 39 ∷ [])
    ++ method
    ++ (39 ∷ 32 ∷ 109 ∷ 101 ∷ 116 ∷ 104 ∷ 111 ∷ 100 ∷ [])
text request_timeout =
    82 ∷ 101 ∷ 113 ∷ 117 ∷ 101 ∷ 115 ∷ 116 ∷ 32 ∷ 116 ∷ 105 ∷ 109 ∷ 101 ∷ 111 ∷ 117 ∷ 116 ∷ []
text invalid_header =
    73 ∷ 110 ∷ 118 ∷ 97 ∷ 108 ∷ 105 ∷ 100 ∷ 32 ∷ 72 ∷ 84 ∷ 84 ∷ 80 ∷ 32 ∷ 104 ∷ 101 ∷ 97 ∷ 100 ∷ 101
    ∷ 114 ∷ []
text only_post =
    79 ∷ 110 ∷ 108 ∷ 121 ∷ 32 ∷ 80 ∷ 79 ∷ 83 ∷ 84 ∷ 32 ∷ 109 ∷ 101 ∷ 116 ∷ 104 ∷ 111 ∷ 100 ∷ 32
    ∷ 105 ∷ 115 ∷ 32 ∷ 115 ∷ 117 ∷ 112 ∷ 112 ∷ 111 ∷ 114 ∷ 116 ∷ 101 ∷ 100 ∷ []
text unknown_content_type =
    77 ∷ 105 ∷ 115 ∷ 115 ∷ 105 ∷ 110 ∷ 103 ∷ 47 ∷ 85 ∷ 110 ∷ 107 ∷ 110 ∷ 111 ∷ 119 ∷ 32 ∷ 67 ∷ 111
    ∷ 110 ∷ 116 ∷ 101 ∷ 110 ∷ 116 ∷ 84 ∷ 121 ∷ 112 ∷ 101 ∷ 32 ∷ 40 ∷ 99 ∷ 97 ∷ 110 ∷ 32 ∷ 98 ∷ 101
    ∷ 32 ∷ 39 ∷ 97 ∷ 112 ∷ 112 ∷ 108 ∷ 105 ∷ 99 ∷ 97 ∷ 116 ∷ 105 ∷ 111 ∷ 110 ∷ 47 ∷ 106 ∷ 115 ∷ 111
    ∷ 110 ∷ 39 ∷ 44 ∷ 32 ∷ 39 ∷ 97 ∷ 112 ∷ 112 ∷ 108 ∷ 105 ∷ 99 ∷ 97 ∷ 116 ∷ 105 ∷ 111 ∷ 110 ∷ 47
    ∷ 98 ∷ 115 ∷ 111 ∷ 110 ∷ 39 ∷ 32 ∷ 111 ∷ 114 ∷ 32 ∷ 39 ∷ 97 ∷ 112 ∷ 112 ∷ 108 ∷ 105 ∷ 99 ∷ 97
    ∷ 116 ∷ 105 ∷ 111 ∷ 110 ∷ 47 ∷ 98 ∷ 99 ∷ 111 ∷ 110 ∷ 39 ∷ 41 ∷ []
text no_data = 78 ∷ 111 ∷ 32 ∷ 100 ∷ 97 ∷ 116 ∷ 97 ∷ 32 ∷ 102 ∷ 111 ∷ 117 ∷ 110 ∷ 100 ∷ []
text (data_parse_error message) =
    (68 ∷ 97 ∷ 116 ∷ 97 ∷ 32 ∷ 112 ∷ 97 ∷ 114 ∷ 115 ∷ 101 ∷ 32 ∷ 101 ∷ 114 ∷ 114 ∷ 111 ∷ 114 ∷ 58
      ∷ 32 ∷ [])
    ++ message
text (no_box uid) =
    (84 ∷ 104 ∷ 101 ∷ 114 ∷ 101 ∷ 32 ∷ 105 ∷ 115 ∷ 32 ∷ 110 ∷ 111 ∷ 32 ∷ 98 ∷ 111 ∷ 120 ∷ 32 ∷ 119
      ∷ 105 ∷ 116 ∷ 104 ∷ 32 ∷ 116 ∷ 104 ∷ 101 ∷ 32 ∷ 103 ∷ 105 ∷ 118 ∷ 101 ∷ 110 ∷ 32 ∷ 117 ∷ 105
      ∷ 100 ∷ 32 ∷ 39 ∷ [])
    ++ uid
    ++ (39 ∷ [])
text only_request =
    79 ∷ 110 ∷ 108 ∷ 121 ∷ 32 ∷ 39 ∷ 114 ∷ 101 ∷ 113 ∷ 117 ∷ 101 ∷ 115 ∷ 116 ∷ 39 ∷ 32 ∷ 109 ∷ 101
    ∷ 115 ∷ 115 ∷ 103 ∷ 101 ∷ 32 ∷ 116 ∷ 121 ∷ 112 ∷ 101 ∷ 32 ∷ 99 ∷ 97 ∷ 110 ∷ 32 ∷ 98 ∷ 101 ∷ 32
    ∷ 102 ∷ 111 ∷ 114 ∷ 119 ∷ 97 ∷ 114 ∷ 100 ∷ 101 ∷ 100 ∷ []
text (invalid_http_method method) =
    (105 ∷ 110 ∷ 118 ∷ 97 ∷ 108 ∷ 105 ∷ 100 ∷ 32 ∷ 109 ∷ 101 ∷ 116 ∷ 104 ∷ 111 ∷ 100 ∷ 32 ∷ 39 ∷ [])
    ++ method
    ++ (39 ∷ [])
