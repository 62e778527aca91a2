-- ===== src/EthernetIp/Runs.antt =====
-- EtherNet/IP messages, paths and tags on small inputs.
mod Devices
mod Controllers
mod Servers
use mathlib.Core.Path.{subst}
use goindustrial.Base.{
  ℕ, ◌≡◌, ◌≤◌, ◌<◌, ◌+◌, ◌*◌, ◌==◌, sym, ◌∙◌, inl, inr, Bool-cases, refl, if◌then◌else◌, List, [],
  ◌∷◌, ◌++◌, map, none, some, length, arith,
}
use goindustrial.Base.{ok, err, cip_error}
use goindustrial.EthernetIp.Eip.{
  EncapsulationHeader, header_encode, header_decode, CpfItem, new_common_packet_format, cpf_encode,
  decode_common_packet_format,
}
use goindustrial.EthernetIp.Eip.Framing.{
  header_decode-header_encode, decode_common_packet_format-cpf_encode,
}
use goindustrial.EthernetIp.Cip.Path.{
  len_words, add_port_segment, port_segment, add_symbolic_segment,
}
use goindustrial.EthernetIp.Cip.Path.Segments.{
  Call, class_call, instance_call, member32_call, symbolic_call, add_calls, segment_of,
  read_segments, read_segments-add_calls,
}
use goindustrial.EthernetIp.Cip.Path.Words.{
  Step, segment_step, port_step, add_steps, len_words-add_steps,
}
use goindustrial.EthernetIp.Cip.Message.{
  MessageRouterRequest, request_encode, decode_message_router_request, MessageRouterResponse,
  response_encode, decode_message_router_response,
}
use goindustrial.EthernetIp.Cip.Message.Codec.{
  decode_message_router_request-request_encode, decode_message_router_request_short,
  decode_message_router_response-response_encode,
}
use goindustrial.EthernetIp.Cip.Router.{
  Object, new_message_router, register_object, after_handler, dispatch,
}
use goindustrial.EthernetIp.Cip.Router.Dispatch.{
  IsAnswer, IsCalm, IsCalmRouter, dispatch-register_object, dispatch-IsAnswer,
}
use goindustrial.EthernetIp.Cip.Tag.{parse_tag_path, is_all_digits}
use goindustrial.EthernetIp.Cip.Tag.Split.{Plain, Part, with_dots, IsWritten}
use goindustrial.EthernetIp.Cip.Tag.Notation.{parse_tag_path-with_dots}

abbrev address_and_data : List CpfItem
address_and_data =
    record { type_id = 0; data_length = 0; payload = [] }
    ∷ record { type_id = 178; data_length = 3; payload = 7 ∷ 8 ∷ 9 ∷ [] }
    ∷ []

decode_common_packet_format-cpf_encode_example :
    decode_common_packet_format (cpf_encode (new_common_packet_format address_and_data) ++ 0 ∷ [])
    ≡ ok (new_common_packet_format address_and_data)
decode_common_packet_format-cpf_encode_example =
    decode_common_packet_format-cpf_encode address_and_data (0 ∷ []) (omega arith) (
      record { type_fits = omega arith; length_fits = omega arith; length_counts = refl },
      (record { type_fits = omega arith; length_fits = omega arith; length_counts = refl }, tt),
    )

abbrev calls : List Call
calls =
    class_call 4 ∷ instance_call 300 ∷ symbolic_call (97 ∷ 98 ∷ 99 ∷ []) ∷ member32_call 70000 ∷ []

read_segments-add_calls_example : read_segments 4 (add_calls [] calls) ≡ some (map segment_of calls)
read_segments-add_calls_example =
    read_segments-add_calls calls (omega arith, (omega arith, (omega arith, (omega arith, tt))))

abbrev request : MessageRouterRequest
request = record {
  service = 14;
  request_path = 32 ∷ 4 ∷ 36 ∷ 100 ∷ 48 ∷ 3 ∷ [];
  request_data = 1 ∷ 2 ∷ [];
}

decode_message_router_request-request_encode_example :
    decode_message_router_request (request_encode request) ≡ ok request
decode_message_router_request-request_encode_example =
    decode_message_router_request-request_encode request (omega arith, omega arith) (λ e. cc)

decode_message_router_request_short_example :
    decode_message_router_request (14 ∷ 3 ∷ 32 ∷ 4 ∷ 36 ∷ [])
    ≡ ok (record { service = 14; request_path = 32 ∷ 4 ∷ 36 ∷ 0 ∷ 0 ∷ 0 ∷ []; request_data = [] })
decode_message_router_request_short_example =
    decode_message_router_request_short 14 3 32 (4 ∷ 36 ∷ []) (omega arith)

-- An object that counts its requests and gives the path back
abbrev counting : Object ℕ
counting service path request_data n =
    (n + 1, if service == 14 then ok path else err (cip_error 8 []))

dispatch-register_object_example :
    dispatch
      (register_object 4 counting new_message_router)
      (record {
        service = 14;
        request_path = add_calls [] (class_call 4 ∷ instance_call 100 ∷ []);
        request_data = [];
      })
      0
    ≡ after_handler 14 (counting 14 (add_calls [] (instance_call 100 ∷ [])) [] 0)
dispatch-register_object_example =
    dispatch-register_object new_message_router counting 4 14 (instance_call 100 ∷ []) [] 0
      (omega arith)

counting-IsCalm : IsCalm counting
counting-IsCalm service path request_data n = elim (Bool-cases (service == 14)) [
  | inl e ↦ rw e (λ p. cc)
  | inr e ↦ rw e (λ p. cc)
]

counting_router-IsCalm : IsCalmRouter (register_object 4 counting new_message_router)
unfolding register_object new_message_router
counting_router-IsCalm = record {
  objects_calm = λ c obj h. elim (Bool-cases (c == 4)) [
    | inl e ↦
        let registered : some counting ≡ some obj = sym (rw e refl) ∙ h in
        let same : counting ≡ obj = ground arith in subst IsCalm same counting-IsCalm
    | inr e ↦ let unregistered : none ≡ some obj = sym (rw e refl) ∙ h in absurd cc
  ];
  symbolic_calm = λ obj h. cc;
}

dispatch-IsAnswer_example :
    IsAnswer 14 0 (dispatch (register_object 4 counting new_message_router) request 0)
dispatch-IsAnswer_example =
    dispatch-IsAnswer (register_object 4 counting new_message_router) request 0
      counting_router-IsCalm

-- Program:Main.BAR[1,12].5
abbrev program : Part
program = record {
  name = 80 ∷ 114 ∷ 111 ∷ 103 ∷ 114 ∷ 97 ∷ 109 ∷ 58 ∷ 77 ∷ 97 ∷ 105 ∷ 110 ∷ [];
  indices = [];
}

abbrev bar : Part
bar = record { name = 66 ∷ 65 ∷ 82 ∷ []; indices = (49 ∷ []) ∷ (49 ∷ 50 ∷ []) ∷ [] }

abbrev five : Part
five = record { name = 53 ∷ []; indices = [] }

upper-Plain : (c : ℕ) → 58 ≤ c → c ≤ 90 → Plain c
upper-Plain c lo hi =
    (λ e. absurd (omega arith), λ e. absurd (omega arith), λ e. absurd (omega arith))

lower-Plain : (c : ℕ) → 97 ≤ c → c ≤ 122 → Plain c
lower-Plain c lo hi =
    (λ e. absurd (omega arith), λ e. absurd (omega arith), λ e. absurd (omega arith))

digit-Plain : (c : ℕ) → 48 ≤ c → c ≤ 57 → Plain c
digit-Plain c lo hi =
    (λ e. absurd (omega arith), λ e. absurd (omega arith), λ e. absurd (omega arith))

program-IsWritten : IsWritten program
program-IsWritten = (
  (
    upper-Plain 80 (omega arith) (omega arith),
    (
      lower-Plain 114 (omega arith) (omega arith),
      (
        lower-Plain 111 (omega arith) (omega arith),
        (
          lower-Plain 103 (omega arith) (omega arith),
          (
            lower-Plain 114 (omega arith) (omega arith),
            (
              lower-Plain 97 (omega arith) (omega arith),
              (
                lower-Plain 109 (omega arith) (omega arith),
                (
                  upper-Plain 58 (omega arith) (omega arith),
                  (
                    upper-Plain 77 (omega arith) (omega arith),
                    (
                      lower-Plain 97 (omega arith) (omega arith),
                      (
                        lower-Plain 105 (omega arith) (omega arith),
                        (lower-Plain 110 (omega arith) (omega arith), tt),
                      ),
                    ),
                  ),
                ),
              ),
            ),
          ),
        ),
      ),
    ),
  ),
  λ e. cc,
  tt,
)

bar-IsWritten : IsWritten bar
bar-IsWritten = (
  (
    upper-Plain 66 (omega arith) (omega arith),
    (upper-Plain 65 (omega arith) (omega arith), (upper-Plain 82 (omega arith) (omega arith), tt)),
  ),
  λ e. cc,
  (
    (((omega arith, omega arith), tt), λ e. cc),
    ((((omega arith, omega arith), ((omega arith, omega arith), tt)), λ e. cc), tt),
  ),
)

five-IsWritten : IsWritten five
five-IsWritten = ((digit-Plain 53 (omega arith) (omega arith), tt), λ e. cc, tt)

parse_tag_path-with_dots_example :
    parse_tag_path (with_dots program (bar ∷ five ∷ []))
    ≡ ok (
        add_calls [] (
          symbolic_call (80 ∷ 114 ∷ 111 ∷ 103 ∷ 114 ∷ 97 ∷ 109 ∷ 58 ∷ 77 ∷ 97 ∷ 105 ∷ 110 ∷ [])
          ∷ symbolic_call (66 ∷ 65 ∷ 82 ∷ [])
          ∷ member32_call 1
          ∷ member32_call 12
          ∷ member32_call 5
          ∷ []))
parse_tag_path-with_dots_example =
    parse_tag_path-with_dots program (bar ∷ five ∷ [])
      (program-IsWritten, (bar-IsWritten, (five-IsWritten, tt))) tt
      (((omega arith, (omega arith, tt)), λ e. omega arith), ((tt, λ e. omega arith), tt))
