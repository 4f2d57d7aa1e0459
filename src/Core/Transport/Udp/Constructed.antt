-- ===== src/Core/Transport/Udp/Constructed.antt =====
-- Messages as the constructors and `xor_socket_addr` make them are well formed.
use mstun.Base.{
  ◌==◌, Bool-cases, inl, inr, ℕ, ◌<◌, ◌≡◌, refl, sym, ◌∙◌, arith, List, [], ◌∷◌, map, length, All,
}
use mstun.Base.Words.{IsByte}
use mstun.Core.Message.{Tlv, Message, Class, new_request, new_response, calculate_len}
use mstun.Core.Message.Length.{calculate_len-total_size}
use mstun.Core.Message.TlvCodec.Spelling
use mstun.Core.Message.TlvCodec.Spelling.{total_size, tlv_size}
use mstun.Core.Message.Xor.{xor_tlv, xor_socket_addr}
use mstun.Core.Message.Xor.Laws.{length-xor_tlv, xor_socket_addr-length}
use mstun.Core.Transport.Udp.Codec.{IsWellFormed, message_size}

-- A transaction id.
pub record IsId (tid : List ℕ) : Type 0 where
  pub id_length : length tid ≡ 12
  pub id_bytes : All IsByte tid

module _ (method : ℕ) (tid : List ℕ) (tlvs : List Tlv) (small : method < 4096) (is_id : IsId tid)
    (valid : All Spelling.IsValid tlvs) where
  well_formed :
      (class : Class)
      → IsWellFormed (record {
        header = record {
          method = method;
          class = class;
          transaction_id = tid;
          length = calculate_len tlvs;
        };
        attributes = tlvs;
      })
  well_formed class = record {
    encodable = record {
      header_typed = record {
        is_method = omega arith;
        is_length = omega (arith, calculate_len-total_size tlvs valid);
        id_length = is_id.id_length;
        id_bytes = is_id.id_bytes;
      };
      attributes_valid = valid;
    };
    method_small = small;
    length_right = refl;
  }

  pub new_request-IsWellFormed : IsWellFormed (new_request method tid tlvs)
  unfolding new_request
  new_request-IsWellFormed = well_formed Class.request

  pub new_response-IsWellFormed : IsWellFormed (new_response method tid tlvs)
  unfolding new_response
  new_response-IsWellFormed = well_formed Class.response

module _ (id : ℕ) (tid : List ℕ) where
  attribute_type-xor_tlv : (t : Tlv) → (xor_tlv id tid t).attribute_type ≡ t.attribute_type
  unfolding xor_tlv
  attribute_type-xor_tlv t = elim (Bool-cases (t.attribute_type == id)) [
    | inl hit ↦ rw hit refl
    | inr miss ↦ rw miss refl
  ]

  All-xor_tlv :
      (tlvs : List Tlv)
      → All Spelling.IsValid tlvs
      → All Spelling.IsValid (map (xor_tlv id tid) tlvs)
  All-xor_tlv [] h = tt
  All-xor_tlv (t ∷ ts) h = (
    record {
      type_fits = omega (arith, attribute_type-xor_tlv t, h.0.type_fits);
      length_fits = omega (arith, length-xor_tlv id tid t, h.0.length_fits);
    },
    All-xor_tlv ts h.1,
  )

  total_size-xor_tlv : (tlvs : List Tlv) → total_size (map (xor_tlv id tid) tlvs) ≡ total_size tlvs
  total_size-xor_tlv [] = refl
  total_size-xor_tlv (t ∷ ts) = omega (arith, length-xor_tlv id tid t, total_size-xor_tlv ts)

pub xor_socket_addr-IsWellFormed :
    (id : ℕ) (m : Message) → IsWellFormed m → IsWellFormed (xor_socket_addr id m)
unfolding xor_socket_addr
xor_socket_addr-IsWellFormed id m h = record {
  encodable = record {
    header_typed = h.encodable.header_typed;
    attributes_valid =
        All-xor_tlv id m.header.transaction_id m.attributes h.encodable.attributes_valid;
  };
  method_small = h.method_small;
  length_right = h.length_right ∙ sym ((xor_socket_addr-length id m).1);
}

pub message_size-xor_socket_addr :
    (id : ℕ) (m : Message) → message_size (xor_socket_addr id m) ≡ message_size m
unfolding xor_socket_addr
message_size-xor_socket_addr id m =
    omega (arith, total_size-xor_tlv id m.header.transaction_id m.attributes)
