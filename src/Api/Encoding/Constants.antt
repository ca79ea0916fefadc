-- ===== src/Api/Encoding/Constants.antt =====
-- include/zenoh_flat.h, the constant encodings.
use zenoh_flat_c.Base.{List, [], ◌∷◌, ◌++◌}
use zenoh_flat_c.Base.Text.{Str, codes}
use zenoh_flat_c.Api.{Prototype, prototype, object, const_pointer_to, encoding_t}

-- `const z_encoding_t *z_encoding_…(void)`
abbrev pub encoding_constant : Str → Prototype
encoding_constant name =
    prototype (codes "z_encoding_" ++ name) (const_pointer_to (object encoding_t)) []

abbrev pub application_encodings : List Prototype
application_encodings =
    encoding_constant (codes "application_cbor")
    ∷ encoding_constant (codes "application_cdr")
    ∷ encoding_constant (codes "application_coap_payload")
    ∷ encoding_constant (codes "application_java_serialized_object")
    ∷ encoding_constant (codes "application_json")
    ∷ encoding_constant (codes "application_json_patch_json")
    ∷ encoding_constant (codes "application_json_seq")
    ∷ encoding_constant (codes "application_jsonpath")
    ∷ encoding_constant (codes "application_jwt")
    ∷ encoding_constant (codes "application_mp4")
    ∷ encoding_constant (codes "application_octet_stream")
    ∷ encoding_constant (codes "application_openmetrics_text")
    ∷ encoding_constant (codes "application_protobuf")
    ∷ encoding_constant (codes "application_python_serialized_object")
    ∷ encoding_constant (codes "application_soap_xml")
    ∷ encoding_constant (codes "application_sql")
    ∷ encoding_constant (codes "application_x_www_form_urlencoded")
    ∷ encoding_constant (codes "application_xml")
    ∷ encoding_constant (codes "application_yaml")
    ∷ encoding_constant (codes "application_yang")
    ∷ []

abbrev pub audio_encodings : List Prototype
audio_encodings =
    encoding_constant (codes "audio_aac")
    ∷ encoding_constant (codes "audio_flac")
    ∷ encoding_constant (codes "audio_mp4")
    ∷ encoding_constant (codes "audio_ogg")
    ∷ encoding_constant (codes "audio_vorbis")
    ∷ []

abbrev pub image_encodings : List Prototype
image_encodings =
    encoding_constant (codes "image_bmp")
    ∷ encoding_constant (codes "image_gif")
    ∷ encoding_constant (codes "image_jpeg")
    ∷ encoding_constant (codes "image_png")
    ∷ encoding_constant (codes "image_webp")
    ∷ []

abbrev pub text_encodings : List Prototype
text_encodings =
    encoding_constant (codes "text_css")
    ∷ encoding_constant (codes "text_csv")
    ∷ encoding_constant (codes "text_html")
    ∷ encoding_constant (codes "text_javascript")
    ∷ encoding_constant (codes "text_json")
    ∷ encoding_constant (codes "text_json5")
    ∷ encoding_constant (codes "text_markdown")
    ∷ encoding_constant (codes "text_plain")
    ∷ encoding_constant (codes "text_xml")
    ∷ encoding_constant (codes "text_yaml")
    ∷ []

abbrev pub video_encodings : List Prototype
video_encodings =
    encoding_constant (codes "video_h261")
    ∷ encoding_constant (codes "video_h263")
    ∷ encoding_constant (codes "video_h264")
    ∷ encoding_constant (codes "video_h265")
    ∷ encoding_constant (codes "video_h266")
    ∷ encoding_constant (codes "video_mp4")
    ∷ encoding_constant (codes "video_ogg")
    ∷ encoding_constant (codes "video_raw")
    ∷ encoding_constant (codes "video_vp8")
    ∷ encoding_constant (codes "video_vp9")
    ∷ []

abbrev pub zenoh_encodings : List Prototype
zenoh_encodings =
    encoding_constant (codes "zenoh_bytes")
    ∷ encoding_constant (codes "zenoh_serialized")
    ∷ encoding_constant (codes "zenoh_string")
    ∷ []

abbrev pub encoding_constants : List Prototype
encoding_constants =
    application_encodings
    ++ (audio_encodings
        ++ (image_encodings ++ (text_encodings ++ (video_encodings ++ (zenoh_encodings)))))
