-- ===== src/Core/Transport/Testutils.antt =====
-- stunny-core/src/transport/testutils.rs: the bytes and the messages that the repository's tests of
-- the transports send and expect.
use mstun.Base.{ℕ, List, [], ◌∷◌, replicate}
use mstun.Core.Message.{Message, Class}

abbrev pub bind_request_bytes : List ℕ
bind_request_bytes =
    0x00 ∷ 0x01 ∷ 0x00 ∷ 0x08 ∷ 0x21 ∷ 0x12 ∷ 0xa4 ∷ 0x42 ∷ 0xaa ∷ 0xaa ∷ 0xaa ∷ 0xaa ∷ 0xaa ∷ 0xaa
    ∷ 0xaa ∷ 0xaa ∷ 0xaa ∷ 0xaa ∷ 0xaa ∷ 0xaa ∷ 0x80 ∷ 0x22 ∷ 0x00 ∷ 0x03 ∷ 85 ∷ 103 ∷ 104 ∷ 0x00
    ∷ []

abbrev pub bind_response_bytes : List ℕ
bind_response_bytes =
    0x01 ∷ 0x01 ∷ 0x00 ∷ 0x10 ∷ 0x21 ∷ 0x12 ∷ 0xa4 ∷ 0x42 ∷ 0xbb ∷ 0xbb ∷ 0xbb ∷ 0xbb ∷ 0xbb ∷ 0xbb
    ∷ 0xbb ∷ 0xbb ∷ 0xbb ∷ 0xbb ∷ 0xbb ∷ 0xbb ∷ 0x80 ∷ 0x22 ∷ 0x00 ∷ 0x03 ∷ 85 ∷ 104 ∷ 109 ∷ 0x00
    ∷ 0x80 ∷ 0x22 ∷ 0x00 ∷ 0x04 ∷ 85 ∷ 103 ∷ 104 ∷ 33 ∷ []

abbrev pub bind_indication_bytes : List ℕ
bind_indication_bytes =
    0x00 ∷ 0x11 ∷ 0x00 ∷ 0x00 ∷ 0x21 ∷ 0x12 ∷ 0xa4 ∷ 0x42 ∷ 0xcc ∷ 0xcc ∷ 0xcc ∷ 0xcc ∷ 0xcc ∷ 0xcc
    ∷ 0xcc ∷ 0xcc ∷ 0xcc ∷ 0xcc ∷ 0xcc ∷ 0xcc ∷ []

abbrev pub bind_request_msg : Message
bind_request_msg = record {
  header = record {
    method = 1;
    class = Class.request;
    transaction_id = replicate 12 0xaa;
    length = 8;
  };
  attributes = record { attribute_type = 0x8022; value = 85 ∷ 103 ∷ 104 ∷ [] } ∷ [];
}

abbrev pub bind_response_msg : Message
bind_response_msg = record {
  header = record {
    method = 1;
    class = Class.response;
    transaction_id = replicate 12 0xbb;
    length = 16;
  };
  attributes =
      record { attribute_type = 0x8022; value = 85 ∷ 104 ∷ 109 ∷ [] }
      ∷ record { attribute_type = 0x8022; value = 85 ∷ 103 ∷ 104 ∷ 33 ∷ [] }
      ∷ [];
}

abbrev pub bind_indication_msg : Message
bind_indication_msg = record {
  header = record {
    method = 1;
    class = Class.indication;
    transaction_id = replicate 12 0xcc;
    length = 0;
  };
  attributes = [];
}
