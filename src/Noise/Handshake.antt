-- ===== src/Noise/Handshake.antt =====
-- wassupweb/utils/noise_handler.py: `process_handshake` and `finish_init`. The scalar product
-- (`Curve.shared_key`) is a library's.
use wassupweb.Prelude.{false, Option, none, some, [], Bytes, Result, ◌>>=◌, ok, err, value_error}
use wassupweb.Crypto.{Primitives}
use wassupweb.Noise.State.{NoiseHandler, authenticate, mix_into_key, encrypt, decrypt, local_hkdf}
use wassupweb.Noise.Cert.{Statics, verify_noise_cert_chain}

-- The fields of the server's hello; `none` where the field is not bytes.
pub record ServerHello : Type 0 where
  pub ephemeral : Option Bytes
  pub static_key : Option Bytes
  pub payload : Option Bytes

module _ (p : Primitives) (shared_key : Bytes → Bytes → Result Bytes) (w : Statics) where
  -- `mix_into_key(Curve.shared_key(private, public))`
  unfoldable pub mix_shared : Bytes → Bytes → NoiseHandler → Result NoiseHandler
  mix_shared private public h = do secret ← shared_key private public; ok (mix_into_key p secret h)

  unfoldable pub run_handshake :
      Bytes → Bytes → Bytes → Bytes → Bytes → NoiseHandler → Result (Bytes × NoiseHandler)
  run_handshake ephemeral static payload noise_private noise_public h = do
    h1 ← mix_shared h.private_key ephemeral (authenticate p ephemeral h)
    let (opened, h2) = decrypt p static h1
    key ← opened
    h3 ← mix_shared h2.private_key key h2
    let (cert, h4) = decrypt p payload h3
    decoded ← cert
    _ ← verify_noise_cert_chain p w h4.strict decoded
    let (key_enc, h5) = encrypt p noise_public h4
    h6 ← mix_shared noise_private ephemeral h5
    ok (key_enc, h6)

  -- The guards, in their order.
  unfoldable pub with_fields :
      Option Bytes
      → Option Bytes
      → Option Bytes
      → Bytes
      → Bytes
      → NoiseHandler
      → Result (Bytes × NoiseHandler)
  unfolding run_handshake
  with_fields none static payload private public h =
      err (value_error "invalid noise handshake: missing ephemeral key")
  with_fields (some ephemeral) none payload private public h =
      err (value_error "invalid noise handshake: missing static payload")
  with_fields (some ephemeral) (some static) none private public h =
      err (value_error "invalid noise handshake: missing payload")
  with_fields (some ephemeral) (some static) (some payload) private public h =
      run_handshake ephemeral static payload private public h

  unfoldable pub process_handshake :
      ServerHello → Bytes → Bytes → NoiseHandler → Result (Bytes × NoiseHandler)
  unfolding with_fields
  process_handshake hello noise_private noise_public h =
      with_fields hello.ephemeral hello.static_key hello.payload noise_private noise_public h

-- The keys of the transport; frames that waited are processed by the caller.
unfoldable pub start_transport : Primitives → NoiseHandler → NoiseHandler
start_transport p h =
    let (write_key, read_key) = local_hkdf p [] h in
    record h {
      transport =
          some (record {
            enc_key = write_key;
            dec_key = read_key;
            read_counter = 0;
            write_counter = 0;
          });
      waiting = false;
    }
