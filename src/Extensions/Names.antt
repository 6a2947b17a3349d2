-- ===== src/Extensions/Names.antt =====
-- The parsers of src/extensions/generalname.rs and src/extensions/nameconstraints.rs.
use x509_parser.Asn1.{Any, is_context_specific}
use x509_parser.Der.{Der}
use x509_parser.Error.{BerError, X509Error, ber_value_error, unexpected_tag, unsupported}
use x509_parser.Extensions.{
  GeneralName, GeneralSubtree, NameConstraints, directory_name, dns_name, edi_party_name,
  ip_address, other_name, registered_id, rfc822_name, uri, x400_address,
}
use x509_parser.Prelude.{List, Option, Text, any, if◌then◌else◌, none, ℕ, ◌==◌}
use x509_parser.Result.{
  NomErr, Parser, Result, err, error, failure, map_err, map_ok, ok, ok_or, whole, ◌>>=◌,
}
use x509_parser.Utf8.{from_utf8}
use x509_parser.X509.{X509Name}
use x509_parser.X509.Parse.{name_from_der}

module _ (d : Der) where
  -- `ia5str`: any UTF-8 text is taken.
  unfoldable pub ia5str : Any → Result (NomErr BerError) Text
  ia5str any = ok_or (failure ber_value_error) (from_utf8 any.content)

  -- The `match` of `TryFrom<Any> for GeneralName` on the tag. The `?` makes asn1-rs's error of
  -- a nom error.
  unfoldable pub name_of_tag : Any → Result BerError GeneralName
  name_of_tag any =
      let text = map_err d.ber_from_nom (ia5str any) in
      if any.tag == 0
      then (do
        (rest, oid) ← map_err d.ber_from_nom (d.oid_from_der (whole any.content))
        ok (other_name oid rest.bytes))
      else if any.tag == 1
      then map_ok rfc822_name text
      else if any.tag == 2
      then map_ok dns_name text
      else if any.tag == 3
      then ok (x400_address any)
      else if any.tag == 4
      then (do
        (_, name) ←
            map_err (λ _. unsupported)
              (d.all_consuming X509Error X509Name (name_from_der d) (whole any.content))
        ok (directory_name name))
      else if any.tag == 5
      then ok (edi_party_name any)
      else if any.tag == 6
      then map_ok uri text
      else if any.tag == 7
      then ok (ip_address any.content)
      else if any.tag == 8
      then ok (registered_id (d.oid_new any.content))
      else err (unexpected_tag none any.tag)

  -- `TryFrom<Any> for GeneralName`. `Class::assert_eq` fails with an error of asn1-rs.
  unfoldable pub general_name_of : Any → Result BerError GeneralName
  general_name_of any =
      if is_context_specific any.class then name_of_tag any else err (d.unexpected_class any.class)

  unfoldable pub parse_generalname : Parser BerError GeneralName
  parse_generalname i = do
    (rest, any) ← d.any_from_der i
    gn ← map_err error (general_name_of any)
    ok (rest, gn)

  unfoldable pub parse_subtree : Parser BerError GeneralSubtree
  parse_subtree = d.sequence_g BerError GeneralSubtree λ input _.
      d.nom_map BerError GeneralName GeneralSubtree parse_generalname
        (λ base. record { base = base }) input

  unfoldable pub parse_subtrees : Parser BerError (List GeneralSubtree)
  parse_subtrees =
      d.all_consuming BerError (List GeneralSubtree)
        (d.many1 BerError GeneralSubtree (d.complete BerError GeneralSubtree parse_subtree))

  -- `opt(complete(parse_der_tagged_explicit_g(tag, |input, _| parse_subtrees(input))))`.
  unfoldable pub opt_subtrees : ℕ → Parser BerError (Option (List GeneralSubtree))
  opt_subtrees tag = d.opt BerError (List GeneralSubtree) (
      d.complete BerError (List GeneralSubtree)
        (d.tagged_explicit_g BerError (List GeneralSubtree) tag (λ input _. parse_subtrees input)))

  unfoldable pub parse_nameconstraints : Parser BerError NameConstraints
  parse_nameconstraints i = do
    (ret, named_constraints) ←
        d.sequence_g BerError NameConstraints
          (λ input _. do
            (rem, permitted) ← opt_subtrees 0 input
            (rem1, excluded) ← opt_subtrees 1 rem
            ok (rem1, record { permitted_subtrees = permitted; excluded_subtrees = excluded }))
          i
    ok (ret, named_constraints)
