-- ===== src/Proxy/Binary.antt =====
-- internal/imposter/proxy.go: isBinaryResponseContent.
use go_tartuffe.Prelude.{
  Text, codes, to_lower, contains, any, Bool, true, false, List, [], ◌∷◌, is_blank, not, ◌&&◌,
  if◌then◌else◌,
}
use go_tartuffe.Proxy.{Network}

abbrev pub binary_types : List Text
binary_types =
    codes "application/octet-stream"
    ∷ codes "image/"
    ∷ codes "audio/"
    ∷ codes "video/"
    ∷ codes "application/pdf"
    ∷ codes "application/zip"
    ∷ codes "application/gzip"
    ∷ codes "application/x-tar"
    ∷ []

abbrev pub text_types : List Text
text_types =
    codes "text/"
    ∷ codes "application/json"
    ∷ codes "application/xml"
    ∷ codes "application/javascript"
    ∷ []

unfoldable pub is_binary_response_content : Network → Text → Text → Bool
is_binary_response_content network content_type data_read =
    let ct = to_lower content_type in
    if any (λ t. contains ct t) binary_types
    then true
    else if any (λ t. contains ct t) text_types
    then false
    else not (is_blank data_read) && not (network.is_utf8 data_read)
