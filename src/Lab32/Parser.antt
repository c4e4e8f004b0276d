-- ===== src/Lab32/Parser.antt =====
-- lab32/parser. Its functions are, but for what they log, those of lab32v2/parser, and so they are
-- defined by the model of these.
use operating_systems_labs.Base.{Option, Bytes, ℤ}
use operating_systems_labs.Lab32v2.Parser
use operating_systems_labs.Lab32v2.Parser.{ResultParseHeading, ResultPars}

unfoldable pub find_end_heading : Bytes → ResultPars × ℤ
find_end_heading buf = Parser.find_end_heading buf

unfoldable pub find_end_body : Bytes → ResultPars × ℤ
find_end_body buffer = Parser.find_end_body buffer

unfoldable pub find_content_length : ResultParseHeading → Bytes → ResultParseHeading
find_content_length result buf = Parser.find_content_length result buf

unfoldable pub find_host_and_port : ResultParseHeading → Bytes → Option ResultParseHeading
find_host_and_port result buf = Parser.find_host_and_port result buf

unfoldable pub parsing_heading : Bytes → Option ResultParseHeading
parsing_heading heading = Parser.parsing_heading heading

unfoldable pub parsing_response_heading : Bytes → ResultParseHeading
parsing_response_heading heading = Parser.parsing_response_heading heading
