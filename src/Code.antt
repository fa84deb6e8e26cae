-- ===== src/Code.antt =====
-- For the tests: who unfolds one of these names unfolds the code that its line lists.
use gost_x.Text.{
  eq_text, index_byte, last_index_byte, contains_any, has_prefix, has_suffix, is_space, trim_left,
  trim_space, tabs_to_blanks, split_blanks, before, fields, line_fields,
}
use gost_x.Text.Labels.{find_suffix, cut_label}
use gost_x.Assoc.{lookup, insert, delete, merge}
use gost_x.Net.{
  parse_ip, parse_ipv4, parse_ipv6, parse_cidr, format_code, to4, ip_equal, split_host_port,
  split_at_colon, split_bracketed, strip_port,
}
use gost_x.Loader.{
  reload_period, parse_line, parse_patterns, load_file, load_redis, load_http, load_patterns,
  closed_loaders,
}
use gost_x.Matcher.{
  add_keys, new_ip_matcher, new_cidr_matcher, new_domain_matcher, new_wildcard_matcher, match_ip,
  match_cidr, match_domain, match_wildcard,
}

unfoldable pub text_code : Unit {0}
unfolding eq_text index_byte last_index_byte contains_any has_prefix has_suffix is_space trim_left
    trim_space tabs_to_blanks split_blanks before fields line_fields find_suffix cut_label lookup
    insert delete merge
text_code = tt

unfoldable pub net_code : Unit {0}
unfolding text_code parse_ip parse_ipv4 parse_ipv6 parse_cidr format_code to4 ip_equal
    split_host_port split_at_colon split_bracketed strip_port
net_code = tt

unfoldable pub table_code : Unit {0}
unfolding net_code reload_period parse_line parse_patterns load_file load_redis load_http
    load_patterns closed_loaders add_keys new_ip_matcher new_cidr_matcher new_domain_matcher
    new_wildcard_matcher match_ip match_cidr match_domain match_wildcard
table_code = tt
