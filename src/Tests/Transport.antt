-- ===== src/Tests/Transport.antt =====
-- The noise transport between two ends with the same keys.
use wassupweb.Prelude.{
  ◌≡◌, refl, sym, ap, true, false, none, some, List, [], ◌∷◌, ◌++◌, arith, Bytes, Result,
  ok-injective, ok,
}
use wassupweb.Text.{ascii}
use wassupweb.Wabinary.Node.{BinaryNode, node, nothing}
use wassupweb.Tests.Toy.{toy, toy-IsCipher, value_of}
use wassupweb.Noise.State.{
  NoiseHandler, TransportState, transport_encrypt, encrypt, decrypt, authenticate, mix_into_key,
}
use wassupweb.Noise.Cert.{
  CertChain, CertDetails, Statics, verify_noise_cert_chain, check_payload, check_chain, check_parts,
  check_details, check_signatures, check_issuer,
}
use wassupweb.Crypto.Wrappers.{curve_verify}
use wassupweb.Noise.Handshake.{
  ServerHello, process_handshake, with_fields, run_handshake, mix_shared,
}
use wassupweb.Noise.Frames.{
  Frame, raw, stanza, encode_frame, decode_frame, process_data, process_loop, next_frame, deliver,
  deliver_over,
}
use wassupweb.Noise.Agreement.{
  Paired, Agree, open_all, seal_all, open_all-seal_all, decrypt-encrypt-Agree,
}
use wassupweb.Noise.Cut.{IsBlind, with_bytes}
use wassupweb.Noise.Fragment.{decode_frame-append}
use wassupweb.Noise.Chain.{Trusted}
use wassupweb.Noise.Trust.{IsOpened, process_handshake-Trusted}
use wassupweb.Noise.Delivery.{decode_frame-encode_frame}

abbrev left : TransportState
left = record { enc_key = 1 ∷ []; dec_key = 2 ∷ []; read_counter = 0; write_counter = 4 }

abbrev right : TransportState
right = record { enc_key = 2 ∷ []; dec_key = 1 ∷ []; read_counter = 4; write_counter = 0 }

pair : Paired left right
pair = record { key = refl; counter = refl }

open_all-seal_all_example :
    open_all toy (seal_all toy ((7 ∷ []) ∷ (8 ∷ []) ∷ []) left) right
    ≡ ok ((7 ∷ []) ∷ (8 ∷ []) ∷ [])
open_all-seal_all_example =
    open_all-seal_all toy ((7 ∷ []) ∷ (8 ∷ []) ∷ []) left right toy-IsCipher pair

abbrev early : NoiseHandler
early = record {
  private_key = 3 ∷ [];
  public_key = 4 ∷ [];
  noise_header = 87 ∷ 65 ∷ 6 ∷ 3 ∷ [];
  hash = 5 ∷ [];
  salt = 6 ∷ [];
  enc_key = 7 ∷ [];
  dec_key = 7 ∷ [];
  counter = 0;
  sent_intro = true;
  in_bytes = [];
  transport = none;
  waiting = false;
  pending = false;
  strict = true;
  intro_header = 87 ∷ 65 ∷ 6 ∷ 3 ∷ [];
}

decrypt-encrypt-Agree_example :
    ((decrypt toy (encrypt toy (9 ∷ []) early).0 early).0 ≡ ok (9 ∷ []))
    × Agree (encrypt toy (9 ∷ []) early).1 (decrypt toy (encrypt toy (9 ∷ []) early).0 early).1
decrypt-encrypt-Agree_example =
    decrypt-encrypt-Agree toy (9 ∷ []) early early toy-IsCipher (record {
      hash = refl;
      salt = refl;
      key = refl;
      counter = refl;
      open_a = refl;
      open_b = refl;
    })

-- The callback keeps what it is given, the last first.
abbrev keep : Frame → NoiseHandler × List Frame → Result (NoiseHandler × List Frame)
keep frame (h, world) = ok (h, frame ∷ world)

keep-IsBlind : IsBlind keep
unfolding with_bytes
keep-IsBlind = record {
  blind = λ frame h world bytes. refl;
  keeps = λ frame h world s e.
      ap (λ (x : NoiseHandler × List Frame). x.0.waiting) (sym (ok-injective e));
}

abbrev stanza_of : Bytes → Result BinaryNode
stanza_of bytes = ok (node bytes [] nothing)

abbrev half : NoiseHandler × List Frame
half = (record early { in_bytes = 0 ∷ 0 ∷ 3 ∷ 10 ∷ [] }, raw (9 ∷ []) ∷ [])

decode_frame-append_example :
    decode_frame toy stanza_of keep
      ((0 ∷ 0 ∷ 1 ∷ 9 ∷ 0 ∷ 0 ∷ 3 ∷ 10 ∷ []) ++ (11 ∷ 12 ∷ []))
      (early, [])
    ≡ decode_frame toy stanza_of keep (11 ∷ 12 ∷ []) half
unfolding decode_frame process_data process_loop next_frame deliver deliver_over
decode_frame-append_example =
    decode_frame-append toy stanza_of keep keep-IsBlind (0 ∷ 0 ∷ 1 ∷ 9 ∷ 0 ∷ 0 ∷ 3 ∷ 10 ∷ [])
      (11 ∷ 12 ∷ []) early [] half refl refl

abbrev near : NoiseHandler
near = record early { transport = some left }

abbrev far : NoiseHandler
far = record early { transport = some right }

decode_frame-encode_frame_example :
    decode_frame toy stanza_of keep (encode_frame toy (ascii "iq") near).0 (far, [])
    ≡ keep
        (stanza (node (ascii "iq") [] nothing))
        (record far { transport = some (record right { read_counter = 5 }) }, [])
unfolding transport_encrypt
decode_frame-encode_frame_example =
    decode_frame-encode_frame toy stanza_of keep keep-IsBlind (ascii "iq")
      (node (ascii "iq") [] nothing) near far left right [] toy-IsCipher refl refl refl refl refl
      refl pair (omega arith)

abbrev chain : CertChain
chain = record {
  intermediate = some (1 ∷ [], 2 ∷ []);
  leaf_details = 3 ∷ [];
  leaf_signature = 4 ∷ [];
}

abbrev details : CertDetails
details = record { issuer_serial = some 0; issuer = none; key = 5 ∷ [] }

abbrev parse_chain : Bytes → Result CertChain
parse_chain payload = ok chain

abbrev statics : Statics
statics = record {
  cert_chain = some parse_chain;
  details = some (λ bytes. ok details);
  public_key = 6 ∷ [];
  serial = 0;
  issuer_name = ascii "WhatsAppLongTerm1";
}

abbrev hello : ServerHello
hello = record {
  ephemeral = some (1 ∷ []);
  static_key = some (2 ∷ 3 ∷ []);
  payload = some (4 ∷ 5 ∷ []);
}

abbrev product : Bytes → Bytes → Result Bytes
product private public = ok (private ++ public)

abbrev shaken : Bytes × NoiseHandler
shaken = value_of ([], early) (process_handshake toy product statics hello (8 ∷ []) (9 ∷ []) early)

was_shaken :
    process_handshake toy product statics hello (8 ∷ []) (9 ∷ []) early ≡ ok (shaken.0, shaken.1)
unfolding process_handshake with_fields run_handshake mix_shared verify_noise_cert_chain
    check_payload check_chain check_parts check_details check_signatures check_issuer curve_verify
    encrypt decrypt authenticate mix_into_key
was_shaken = refl

process_handshake-Trusted_example :
    (ephemeral : Bytes) × (static : Bytes) × (payload : Bytes) × (decoded : Bytes)
    × (hello.ephemeral ≡ some ephemeral)
    × (hello.static_key ≡ some static)
    × (hello.payload ≡ some payload)
    × IsOpened toy statics product ephemeral static payload early decoded
    × Trusted toy statics decoded
process_handshake-Trusted_example =
    process_handshake-Trusted toy statics product hello (8 ∷ []) (9 ∷ []) early (shaken.0, shaken.1)
      parse_chain refl refl was_shaken
